-- ===== src/Mqtt/Announced.antt =====
-- crates/core/src/mqtt_dispatch.rs and ha_discovery.rs: what is published and subscribed is what was
-- announced.
use watercontroller.Base.{
  All, ℕ, zero, suc, ◌<◌, arith, length, ◌≡◌, ◌⊎◌, refl, String, Option, none, some, List, [], ◌∷◌,
  ◌++◌, inl, inr, to_string,
}
use watercontroller.State.{DeviceSnapshot}
use watercontroller.Mqtt.{
  Printer, Body, text, Publish, Client, retained, publish, publish_some, publish_state,
}
use watercontroller.Mqtt.Discovery.{
  DeviceContext, DiscoveryMsg, Payload, sensor_payload, switch_payload, binary_sensor_payload,
  sensor, switch, binary_sensor, sensor_state_topic, switch_state_topic,
}
use watercontroller.Mqtt.Entities.{all_messages}

abbrev pub state_topic : Payload → String
state_topic (sensor_payload s) = s.state_topic
state_topic (switch_payload s) = s.state_topic
state_topic (binary_sensor_payload s) = s.state_topic

-- Some message announces the state topic `t`.
abbrev pub Announces : String → List DiscoveryMsg → Type 0
Announces t [] = ⊥
Announces t (m ∷ ms) = (t ≡ state_topic m.payload) ⊎ Announces t ms

abbrev pub command_topics : List DiscoveryMsg → List String
command_topics [] = []
command_topics (m ∷ ms) =
    let rest = command_topics ms in
    elim m.payload [
      | sensor_payload s ↦ rest
      | switch_payload s ↦ s.command_topic ∷ rest
      | binary_sensor_payload s ↦ rest
    ]

abbrev pub Known : DeviceContext → Publish → Type 0
Known ctx p = Announces p.topic (all_messages ctx) × (p.opts ≡ retained)

All-snoc :
    (P : Publish → Type 0) (xs : List Publish) (x : Publish) → All P xs → P x → All P (xs ++ x ∷ [])
All-snoc P [] x h k = (k, tt)
All-snoc P (y ∷ xs) x (h, hs) k = (h, All-snoc P xs x hs k)

publish-Known :
    (ctx : DeviceContext) (t : String) (b : Body) (m : Client)
    → Announces t (all_messages ctx)
    → All (Known ctx) m.published
    → All (Known ctx) (publish t b m).published
unfolding publish
publish-Known ctx t b m a h = All-snoc (Known ctx) m.published _ h (a, refl)

publish_some-Known :
    {A : Type 0} (ctx : DeviceContext) (key : String) (print : A → String) (o : Option A)
    (m : Client)
    → Announces (sensor_state_topic ctx key) (all_messages ctx)
    → All (Known ctx) m.published
    → All (Known ctx) (publish_some ctx key print o m).published
unfolding publish_some
publish_some-Known ctx key print none m a h = h
publish_some-Known ctx key print (some v) m a h =
    publish-Known ctx (sensor_state_topic ctx key) (text (print v)) m a h

-- The announcement that stands `n` places behind the first.
abbrev at : ℕ → List DiscoveryMsg → String
at zero [] = ""
at (suc n) [] = ""
at zero (m ∷ ms) = state_topic m.payload
at (suc n) (m ∷ ms) = at n ms

Announces-at :
    (n : ℕ) (t : String) (ms : List DiscoveryMsg) → n < length ms → t ≡ at n ms → Announces t ms
Announces-at n t [] h e = absurd (omega arith)
Announces-at zero t (m ∷ ms) h e = inl e
Announces-at (suc n) t (m ∷ ms) h e = inr (Announces-at n t ms (omega arith) e)

-- Whatever the snapshot, all that `publish_state` publishes is retained and goes to state topics that
-- the discovery messages of the same device have announced.
pub publish_state-Known :
    {F : Type 0} (pr : Printer F) (ctx : DeviceContext) (snap : DeviceSnapshot F) (m : Client)
    → m.published ≡ []
    → All (Known ctx) (publish_state pr ctx snap m).published
unfolding publish_state all_messages sensor switch binary_sensor sensor_state_topic
    switch_state_topic
publish_state-Known pr ctx snap m e =
    (publish-Known ctx _ _ _ (Announces-at 12 _ (all_messages ctx) (omega arith) refl) (
      publish-Known ctx _ _ _ (Announces-at 11 _ (all_messages ctx) (omega arith) refl) (
        publish-Known ctx _ _ _ (Announces-at 10 _ (all_messages ctx) (omega arith) refl) (
          publish-Known ctx _ _ _ (Announces-at 9 _ (all_messages ctx) (omega arith) refl) (
            publish_some-Known ctx "reset_reason" (λ r. r) snap.diagnostics.reset_reason _
              (Announces-at 8 _ (all_messages ctx) (omega arith) refl)
              (publish-Known ctx _ _ _ (Announces-at 7 _ (all_messages ctx) (omega arith) refl) (
                publish_some-Known ctx "free_heap" to_string snap.diagnostics.free_heap_bytes _
                  (Announces-at 6 _ (all_messages ctx) (omega arith) refl)
                  (publish_some-Known ctx "wifi_rssi" pr.signed snap.network.wifi_rssi_dbm _
                    (Announces-at 5 _ (all_messages ctx) (omega arith) refl)
                    (publish_some-Known ctx "water_total" pr.fixed_3 snap.sensors.total_l _
                      (Announces-at 3 _ (all_messages ctx) (omega arith) refl)
                      (publish_some-Known ctx "water_flow" pr.fixed_1 snap.sensors.flow_lph _
                        (Announces-at 2 _ (all_messages ctx) (omega arith) refl)
                        (publish_some-Known ctx "pressure" pr.fixed_2 snap.sensors.pressure_bar _
                          (Announces-at 1 _ (all_messages ctx) (omega arith) refl)
                          (publish_some-Known ctx "battery" pr.fixed_2 snap.sensors.battery_v _
                            (Announces-at 0 _ (all_messages ctx) (omega arith) refl)
                            (rw e tt)))))))))))))
