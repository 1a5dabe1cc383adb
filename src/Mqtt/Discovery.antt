-- ===== src/Mqtt/Discovery.antt =====
-- crates/core/src/ha_discovery.rs: the messages by which Home Assistant learns of the entities. A
-- payload is the value that the JSON codec gets.
use watercontroller.Base.{ℕ, String, Bool, false, Option, List, [], ◌∷◌, ◌<>◌}

pub record DeviceContext : Type 0 where
  pub base_topic : String
  pub discovery_prefix : String
  pub device_id : String
  pub friendly_name : String
  pub sw_version : String
  pub manufacturer : String
  pub model : String

pub record DeviceBlock : Type 0 where
  pub identifiers : List String
  pub name : String
  pub manufacturer : String
  pub model : String
  pub sw_version : String

pub record SensorPayload : Type 0 where
  pub name : String
  pub unique_id : String
  pub object_id : String
  pub state_topic : String
  pub unit_of_measurement : Option String
  pub device_class : Option String
  pub state_class : Option String
  pub icon : Option String
  pub suggested_display_precision : Option ℕ
  pub availability_topic : String
  pub payload_available : String
  pub payload_not_available : String
  pub device : DeviceBlock

pub record SwitchPayload : Type 0 where
  pub name : String
  pub unique_id : String
  pub object_id : String
  pub state_topic : String
  pub command_topic : String
  pub payload_on : String
  pub payload_off : String
  pub state_on : String
  pub state_off : String
  pub optimistic : Bool
  pub availability_topic : String
  pub payload_available : String
  pub payload_not_available : String
  pub device : DeviceBlock

pub record BinarySensorPayload : Type 0 where
  pub name : String
  pub unique_id : String
  pub object_id : String
  pub state_topic : String
  pub payload_on : String
  pub payload_off : String
  pub device_class : Option String
  pub icon : Option String
  pub availability_topic : String
  pub payload_available : String
  pub payload_not_available : String
  pub device : DeviceBlock

pub data Payload : Type 0 where
  sensor_payload : SensorPayload → Payload
  switch_payload : SwitchPayload → Payload
  binary_sensor_payload : BinarySensorPayload → Payload

pub record DiscoveryMsg : Type 0 where
  pub topic : String
  pub payload : Payload

pub record Sensor : Type 0 where
  pub key : String
  pub name : String
  pub unit : Option String
  pub device_class : Option String
  pub state_class : Option String
  pub icon : Option String
  pub precision : Option ℕ

pub record Switch : Type 0 where
  pub key : String
  pub name : String

pub record BinarySensor : Type 0 where
  pub key : String
  pub name : String
  pub device_class : Option String
  pub icon : Option String

abbrev pub device_block : DeviceContext → DeviceBlock
device_block c = record {
  identifiers = c.device_id ∷ [];
  name = c.friendly_name;
  manufacturer = c.manufacturer;
  model = c.model;
  sw_version = c.sw_version;
}

abbrev pub availability_topic : DeviceContext → String
availability_topic c = c.base_topic <> "/status"

unfoldable pub sensor_state_topic : DeviceContext → String → String
sensor_state_topic c key = c.base_topic <> "/" <> key <> "/state"

unfoldable pub switch_state_topic : DeviceContext → String → String
switch_state_topic c key = c.base_topic <> "/" <> key <> "/state"

unfoldable pub switch_command_topic : DeviceContext → String → String
switch_command_topic c key = c.base_topic <> "/" <> key <> "/set"

abbrev unique_id : DeviceContext → String → String
unique_id c key = c.device_id <> "_" <> key

unfoldable pub sensor : DeviceContext → Sensor → DiscoveryMsg
sensor c s = record {
  topic = c.discovery_prefix <> "/sensor/" <> unique_id c s.key <> "/config";
  payload = sensor_payload (record {
    name = s.name;
    unique_id = unique_id c s.key;
    object_id = unique_id c s.key;
    state_topic = sensor_state_topic c s.key;
    unit_of_measurement = s.unit;
    device_class = s.device_class;
    state_class = s.state_class;
    icon = s.icon;
    suggested_display_precision = s.precision;
    availability_topic = availability_topic c;
    payload_available = "online";
    payload_not_available = "offline";
    device = device_block c;
  });
}

unfoldable pub binary_sensor : DeviceContext → BinarySensor → DiscoveryMsg
binary_sensor c s = record {
  topic = c.discovery_prefix <> "/binary_sensor/" <> unique_id c s.key <> "/config";
  payload = binary_sensor_payload (record {
    name = s.name;
    unique_id = unique_id c s.key;
    object_id = unique_id c s.key;
    state_topic = sensor_state_topic c s.key;
    payload_on = "ON";
    payload_off = "OFF";
    device_class = s.device_class;
    icon = s.icon;
    availability_topic = availability_topic c;
    payload_available = "online";
    payload_not_available = "offline";
    device = device_block c;
  });
}

unfoldable pub switch : DeviceContext → Switch → DiscoveryMsg
switch c s = record {
  topic = c.discovery_prefix <> "/switch/" <> unique_id c s.key <> "/config";
  payload = switch_payload (record {
    name = s.name;
    unique_id = unique_id c s.key;
    object_id = unique_id c s.key;
    state_topic = switch_state_topic c s.key;
    command_topic = switch_command_topic c s.key;
    payload_on = "ON";
    payload_off = "OFF";
    state_on = "ON";
    state_off = "OFF";
    optimistic = false;
    availability_topic = availability_topic c;
    payload_available = "online";
    payload_not_available = "offline";
    device = device_block c;
  });
}
