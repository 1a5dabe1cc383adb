-- ===== src/Mqtt/Entities.antt =====
-- crates/core/src/ha_discovery.rs: the entities of the device.
use watercontroller.Base.{none, some, List, [], ◌∷◌}
use watercontroller.Mqtt.Discovery.{DeviceContext, DiscoveryMsg, sensor, binary_sensor, switch}

unfoldable pub all_messages : DeviceContext → List DiscoveryMsg
all_messages ctx =
    sensor ctx (record {
      key = "battery";
      name = "Battery";
      unit = some "V";
      device_class = some "voltage";
      state_class = some "measurement";
      icon = none;
      precision = some 2;
    })
    ∷ sensor ctx (record {
      key = "pressure";
      name = "Pressure";
      unit = some "bar";
      device_class = some "pressure";
      state_class = some "measurement";
      icon = none;
      precision = some 2;
    })
    ∷ sensor ctx (record {
      key = "water_flow";
      name = "Water flow";
      unit = some "L/h";
      device_class = some "water";
      state_class = some "measurement";
      icon = some "mdi:water";
      precision = some 1;
    })
    ∷ sensor ctx (record {
      key = "water_total";
      name = "Total water";
      unit = some "L";
      device_class = some "water";
      state_class = some "total_increasing";
      icon = some "mdi:water";
      precision = some 3;
    })
    ∷ sensor ctx (record {
      key = "loop_time";
      name = "Loop time";
      unit = some "ms";
      device_class = none;
      state_class = some "measurement";
      icon = some "mdi:timer-outline";
      precision = some 0;
    })
    ∷ sensor ctx (record {
      key = "wifi_rssi";
      name = "WiFi signal";
      unit = some "dBm";
      device_class = some "signal_strength";
      state_class = some "measurement";
      icon = none;
      precision = some 0;
    })
    ∷ sensor ctx (record {
      key = "free_heap";
      name = "Free heap";
      unit = some "B";
      device_class = some "data_size";
      state_class = some "measurement";
      icon = some "mdi:memory";
      precision = some 0;
    })
    ∷ sensor ctx (record {
      key = "uptime";
      name = "Uptime";
      unit = some "s";
      device_class = some "duration";
      state_class = some "total_increasing";
      icon = some "mdi:timer-outline";
      precision = some 0;
    })
    ∷ sensor ctx (record {
      key = "reset_reason";
      name = "Reset reason";
      unit = none;
      device_class = none;
      state_class = none;
      icon = some "mdi:restart-alert";
      precision = none;
    })
    ∷ switch ctx (record { key = "sprinkler_1"; name = "Riego exterior" })
    ∷ switch ctx (record { key = "sprinkler_2"; name = "Riego mobil" })
    ∷ switch ctx (record { key = "water_control"; name = "Water control" })
    ∷ binary_sensor ctx (record {
      key = "flow_alarm";
      name = "Flow alarm";
      device_class = some "problem";
      icon = some "mdi:water-alert";
    })
    ∷ []
