-- ===== src/Lib.antt =====
-- Verification of the water controller (crates/core, crates/host and the parts of crates/firmware
-- and crates/firmware-nostd that hold logic of their own): two sprinklers with auto-off timers, a motorised water valve with a
-- drain, a weekly schedule, a flow alarm that closes the valve, configuration and webhooks.
--
-- The program's parts and the files that model them, with paths from the repository's root:
--   Switch.antt    crates/core/src/switch.rs: `TimedSwitch`, one function per method. A method that
--                  takes `&mut self` returns the new switch. Times are in milliseconds.
--   Valve.antt     crates/core/src/water_valve.rs: `WaterValve`, the sequencer of the valve; `Phase`
--                  has the constructors of the source.
--   State.antt     crates/core/src/state.rs: the records of the snapshot that the other parts read.
--   Schedule.antt  crates/core/src/schedule.rs: rules and the evaluation of a range of minutes, over
--                  the calendar of Schedule/Chrono.antt, which stands for the crate chrono.
--   Calibration.antt  crates/core/src/calibration.rs, `new` and `apply`: the points are
--                  `Config.Calibration`, a panic is `none`.
--   Nvs.antt       crates/core/src/traits.rs, `NvsStore`: the interface of the non-volatile store with
--                  its laws; Nvs/Fake.antt is `FakeNvs` of crates/host/src/fakes.rs, which meets them.
--   Config.antt    crates/core/src/config.rs: the configuration; Config/Defaults.antt its default
--                  values, Config/Persist.antt load, save and factory reset.
--   Webhook.antt   crates/core/src/webhook.rs: events, variables, templates; Webhook/Dispatch.antt the
--                  dispatchers, with the bounded queue of crates/firmware/src/webhook_dispatch.rs.
--   App.antt       crates/core/src/app.rs: `App`, which owns the rest; App/Tick.antt is `tick`,
--                  App/FlowAlarm.antt the rule of the flow alarm, App/Run.antt sequences of calls;
--                  App/ScheduleTask.antt is the task of crates/firmware-nostd/src/schedule.rs.
--   Mqtt.antt      crates/core/src/mqtt_dispatch.rs: routing of commands, the connection and the state
--                  topics; Mqtt/Discovery.antt and Mqtt/Entities.antt are
--                  crates/core/src/ha_discovery.rs. The client is `FakeMqtt` of crates/host/src/fakes.rs.
--   Http.antt      crates/firmware/src/http_server.rs: requests, the state that the handlers share, and the
--                  token; Http/Sections.antt the sections of the configuration, Http/Body.antt the reading
--                  of a body, Http/Update.antt the upload of an image, Http/Routes.antt the handlers,
--                  Http/Sockets.antt the senders of the log; Http/Host.antt is crates/host/src/http.rs.
--   WebApi.antt    crates/firmware-nostd/src/webapi.rs: the same API in the firmware without an operating
--                  system, with its merge on JSON values.
--   Serial.antt    crates/firmware/src/serial_cli.rs: the commands of the console; Serial/Line.antt its line
--                  discipline, Serial/Commas.antt `with_commas`.
--   FlashKv.antt   crates/firmware-nostd/src/nvs.rs: the store in flash; FlashKv/Keys.antt its laws as a
--                  key-value store, FlashKv/Codes.antt an encoding of texts for the tests.
--   Supervisor.antt  crates/firmware/src/net_wifi.rs: the Wi-Fi supervisor as a state machine, with the
--                  calls of other threads between its turns.
--   Captive.antt   crates/firmware/src/captive_dns.rs: the answer to a query of the captive portal.
--   Portal.antt    crates/firmware-nostd/src/ap.rs: the DHCP and the DNS server of the setup portal.
--   Boot.antt      crates/firmware-nostd/src/main.rs and ap.rs: the hint of the radio mode, the choice at the
--                  boot and `scan_task`; Boot/Station.antt is `connection_task`.
--   Broker.antt    crates/firmware-nostd/src/mqtt.rs: the session with the broker.
--   Console.antt   crates/firmware-nostd/src/serial.rs: the console of that firmware; Console/Line.antt its
--                  line editor.
--   Sntp.antt      crates/firmware-nostd/src/sntp.rs: the clock and its synchronisation.
--   Ota.antt       crates/firmware-nostd/src/ota.rs: an update over the network.
--   Post.antt      crates/firmware-nostd/src/webhook.rs: the delivery of webhooks.
--   Pulse.antt     crates/firmware/src/hw_pcnt.rs, `count`, and the accumulation of pulses in
--                  crates/firmware-nostd/src/sensors.rs.
--   Sampling.antt  crates/firmware/src/main.rs, `spawn_sensor_task`, and
--                  crates/firmware-nostd/src/sensors.rs: the loops that sample the sensors;
--                  Sampling/Window.antt the windows of the battery.
--   LogBuffer.antt  crates/core/src/log_buffer.rs: the ring of log records and its subscribers.
--   Base.antt      tests on numbers, lists and strings that the parts share.
--
-- How they interact: `tick` drives the two switches and the valve, mirrors them in the snapshot,
-- evaluates the flow alarm on the snapshot, which may close the valve and emit an event, and stores
-- the state of the valve. Commands and schedules change a switch or the valve; a new configuration
-- changes their timing. In App/Run.antt these calls are events, and the theorems about runs hold for
-- every sequence of them. The HTTP server and the console hold the application and its store: they
-- merge a section or a list of networks into the configuration, save it, hand it to the application
-- and tell the Wi-Fi supervisor.
--
-- What is a parameter: `f32` with its comparison and its printing, the store and the JSON codec
-- of the alarm history (`Platform`), the JSON codec of the configuration (`Codec`), the calendar
-- (`Calendar`), the printing of the numbers that MQTT publishes (`Printer`), the parsers of
-- request bodies (`Json`, `SerdeJson`), the updater (`EspOta`), the answers of the radio
-- (`Radio`), the arithmetic of `f32` (`Float`, `Casts`), the erasing and the programming of
-- flash (`FlashStorage`) and the decoding of UTF-8 (`Utf8`), the partitions of an update
-- (`OtaFlash`), and what a radio or a socket answers (`Attempt`, `Net`, a list of reads). What
-- is assumed of them is in `NvsLaws`, `KeyLaws`, `FlashBytes`, `CalendarLaws`, `IsOrdered` and the
-- hypotheses of a theorem. `KeyLaws` are the weaker laws of a store, which the store in flash of
-- FlashKv.antt meets too; a write that fails may leave anything under its key. Every reading of the clock within a method is an argument of it (`Reading`, `Fired`),
-- so nothing is assumed of the clock.
--
-- Numbers are natural numbers. `saturating_sub` on `u64` is subtraction of natural numbers, the cast
-- to `u32` in the flow alarm is written as a remainder, and its counter saturates. A `u64` of
-- milliseconds does not overflow in the life of a device, so its addition has no remainder. The loop
-- over minutes in `evaluate_range` has the source's bound of 25 h. The other loops without a bound of
-- their own have a fuel: a walk over the labels of a name or the options of a DHCP request, one more
-- than the bytes of the packet, of which each step takes one at least; the reading of an image, whose
-- fuel is the size that was announced, of which each chunk takes one byte at least; and the digits of
-- a number, the number itself (`with_commas`) or one more, which is not less than their count.
-- A map is an association list: sorted by key for `BTreeMap`, in any order for `HashMap`.
--
-- Not modelled: the locks (a method of `App`, a handler and a turn of a thread are one step each), log
-- output, the set-up of listeners, tasks and sockets, the clients of brokers, of the firmware with an
-- operating system its updates and outbound requests, TLS and drivers, which are calls of vendor
-- stacks. The host build leaves routing and the reading of bodies to axum, so its model starts at the
-- handlers.
mod Base
pub mod Valve
pub mod Switch
pub mod State
pub mod Webhook
pub mod Schedule
pub mod Nvs
pub mod Config
pub mod App
pub mod Mqtt
pub mod LogBuffer
pub mod Http
pub mod Serial
pub mod Calibration
pub mod FlashKv
pub mod Captive
pub mod Supervisor
pub mod WebApi
pub mod Pulse
pub mod Portal
pub mod Boot
pub mod Sampling
pub mod Sntp
pub mod Broker
pub mod Console
pub mod Ota
pub mod Post
