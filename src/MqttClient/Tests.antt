-- ===== src/MqttClient/Tests.antt =====
-- The client over a library that remembers what it is asked for.
use zephyr_common.Common.{ℕ, ◌≡◌, refl, true, false, List, [], ◌∷◌, ◌++◌, ok}
use zephyr_common.MqttClient.{
  Mqtt, MqttClient, connack, publish, pubrec, exactly_once, at_least_once, event_handler,
  handle_all, set_topic, acknowledge,
}
use zephyr_common.MqttClient.Events.{Packet, release, receive, IsMqtt, event_handler-Handles}
use zephyr_common.MqttClient.Publish.{IsPublisher, publish_all, publish_all-numbered}

-- The packets, and the messages by identifier and payload.
abbrev Log : Type 0
Log = List Packet × List (ℕ × List ℕ)

-- Each message has one byte.
abbrev library : Mqtt Log
library = record {
  mqtt_publish_qos2_release = λ id w. (ok 0, (w.0 ++ release id ∷ [], w.1));
  mqtt_publish_qos2_receive = λ id w. (ok 0, (w.0 ++ receive id ∷ [], w.1));
  mqtt_read_publish_payload = λ buffer w. (ok 1, 65 ∷ [], w);
  mqtt_publish = λ param w. (ok 0, (w.0, w.1 ++ (param.message_id, param.payload) ∷ []));
  mqtt_input = λ w. (ok 0, [], w);
  mqtt_live = λ w. (ok 0, [], w);
  mqtt_connect = λ w. (ok 0, [], w);
  poll = λ timeout w. (ok 0, record { pollin = false; pollhup = false; pollerr = false }, w);
}

library-IsMqtt : IsMqtt library (λ w. w.0)
library-IsMqtt = record {
  releases = λ id w. refl;
  receives = λ id w. refl;
  reads = λ buffer w. refl;
}

library-IsPublisher : IsPublisher library (λ w. w.1)
library-IsPublisher = record { publishes = λ param w. refl }

abbrev client : MqttClient
client = record { connected = true; poll_timeout_ms = 1000; publish_rx_buffer = [] }

-- A session in which the broker sends one message and takes one.
session :
    handle_all library
      (connack 0 ∷ publish 0 7 exactly_once ∷ pubrec 0 3 ∷ connack 5 ∷ [])
      (record client { connected = false })
      ([], [])
    ≡ (
      record client { connected = false; publish_rx_buffer = 65 ∷ [] },
      (receive 7 ∷ release 3 ∷ [], []),
    )
unfolding handle_all event_handler acknowledge
session = refl

event_handler-Handles_example :
    let after = event_handler library (publish 0 7 exactly_once) client ([], []) in
    (after.1.0 ≡ receive 7 ∷ []) × (after.0.connected ≡ true)
event_handler-Handles_example =
    event_handler-Handles library (λ w. w.0) library-IsMqtt (publish 0 7 exactly_once) client
      ([], [])

publish_all-numbered_example :
    let after =
      publish_all library
        (λ w. w.1)
        library-IsPublisher
        client
        (set_topic (116 ∷ []) at_least_once)
        ((1 ∷ []) ∷ (2 ∷ []) ∷ [])
        ([], []) in
    (after.1.1 ≡ (0, 1 ∷ []) ∷ (1, 2 ∷ []) ∷ []) × (after.0.msg_id ≡ 2)
publish_all-numbered_example =
    publish_all-numbered library (λ w. w.1) library-IsPublisher client (116 ∷ []) at_least_once
      ((1 ∷ []) ∷ (2 ∷ []) ∷ []) ([], []) refl
