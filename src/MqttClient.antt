-- ===== src/MqttClient.antt =====
-- modules/MqttClient: a client over the MQTT library of Zephyr, which is a parameter with the state
-- `W`. The events for which a call of the library calls `event_handler` are part of what it
-- answers; a result of an event is 0 or the size of a negative code.
pub mod Events
pub mod Publish
mod Tests
use zephyr_common.Common.{
  ℕ, zero, suc, ◌+◌, Bool, true, false, List, [], ◌∷◌, ◌==◌, u16, Ret, ok, err, failed, length,
}

pub data Qos : Type 0 where
  at_most_once at_least_once exactly_once : Qos

-- `struct mqtt_evt` with what the handler reads of it, and the identifier of a PUBREL.
pub data Event : Type 0 where
  connack disconnect suback unsuback puback pubcomp : ℕ → Event
  pubrec pubrel : ℕ → ℕ → Event
  publish : ℕ → ℕ → Qos → Event
  pingresp other : Event

pub record Revents : Type 0 where
  pub pollin : Bool
  pub pollhup : Bool
  pub pollerr : Bool

-- `struct mqtt_publish_param`, without the flags, which are 0.
pub record Param : Type 0 where
  pub qos : Qos
  pub topic : List ℕ
  pub payload : List ℕ
  pub message_id : ℕ

pub record Mqtt (W : Type 0) : Type 0 where
  pub mqtt_publish_qos2_release : ℕ → W → Ret × W
  pub mqtt_publish_qos2_receive : ℕ → W → Ret × W
  pub mqtt_read_publish_payload : List ℕ → W → Ret × List ℕ × W
  pub mqtt_publish : Param → W → Ret × W
  pub mqtt_input : W → Ret × List Event × W
  pub mqtt_live : W → Ret × List Event × W
  pub mqtt_connect : W → Ret × List Event × W
  pub poll : ℕ → W → Ret × Revents × W

pub record MqttClient : Type 0 where
  pub connected : Bool
  pub poll_timeout_ms : ℕ
  pub publish_rx_buffer : List ℕ

pub record PubTopic : Type 0 where
  pub qos : Qos
  pub topic : List ℕ
  pub msg_id : ℕ

module _ {W : Type 0} (mqtt : Mqtt W) where
  -- The acknowledgement of a published message.
  unfoldable pub acknowledge : Qos → ℕ → W → W
  acknowledge exactly_once id w = (mqtt.mqtt_publish_qos2_receive id w).1
  acknowledge at_most_once id w = w
  acknowledge at_least_once id w = w

  unfoldable pub event_handler : Event → MqttClient → W → MqttClient × W
  unfolding acknowledge
  event_handler (connack result) mqc w = (record mqc { connected = result == 0 }, w)
  event_handler (disconnect result) mqc w = (record mqc { connected = false }, w)
  event_handler (pubrec result id) mqc w = elim (result == 0) [
    | true ↦ (mqc, (mqtt.mqtt_publish_qos2_release id w).1)
    | false ↦ (mqc, w)
  ]
  event_handler (publish result id qos) mqc w = elim (result == 0) [
    | false ↦ (mqc, w)
    | true ↦
        let (num, buffer, w') = mqtt.mqtt_read_publish_payload mqc.publish_rx_buffer w in
        let mqc' = record mqc { publish_rx_buffer = buffer } in
        elim num [
          | err e ↦ (mqc', w')
          | ok zero ↦ (mqc', w')
          | ok (suc n) ↦ (mqc', acknowledge qos id w')
        ]
  ]
  event_handler (suback result) mqc w = (mqc, w)
  event_handler (unsuback result) mqc w = (mqc, w)
  event_handler (puback result) mqc w = (mqc, w)
  event_handler (pubrel result id) mqc w = (mqc, w)
  event_handler (pubcomp result) mqc w = (mqc, w)
  event_handler pingresp mqc w = (mqc, w)
  event_handler other mqc w = (mqc, w)

  unfoldable pub handle_all : List Event → MqttClient → W → MqttClient × W
  unfolding event_handler
  handle_all [] mqc w = (mqc, w)
  handle_all (event ∷ events) mqc w =
      let (mqc', w') = event_handler event mqc w in handle_all events mqc' w'

  unfoldable pub call_mqtt_input : MqttClient → W → Ret × MqttClient × W
  unfolding handle_all
  call_mqtt_input mqc w =
      let (ret, events, w1) = mqtt.mqtt_input w in
      let (mqc', w2) = handle_all events mqc w1 in (ret, mqc', w2)

  unfoldable pub wait_poll_input : MqttClient → W → Ret × MqttClient × W
  unfolding call_mqtt_input
  wait_poll_input mqc w =
      let (ready, revents, w') = mqtt.poll mqc.poll_timeout_ms w in
      elim ready [
        | err e ↦ (err failed, mqc, w')
        | ok zero ↦ (err failed, mqc, w')
        | ok (suc n) ↦ elim (revents.pollin) [
          | true ↦ call_mqtt_input mqc w'
          | false ↦ (err failed, mqc, w')
        ]
      ]

  unfoldable pub connect : MqttClient → W → Ret × MqttClient × W
  unfolding wait_poll_input handle_all
  connect mqc w =
      let (ret, events, w') = mqtt.mqtt_connect w in
      let (mqc', w2) = handle_all events mqc w' in wait_poll_input mqc' w2

  -- A round of `client_thread`, up to its sleep.
  unfoldable pub client_round : MqttClient → W → MqttClient × W
  unfolding wait_poll_input connect handle_all
  client_round mqc w = elim (mqc.connected) [
    | true ↦
        let (ret, mqc1, w1) = wait_poll_input mqc w in
        let (ret2, events, w2) = mqtt.mqtt_live w1 in
        let (mqc2, w3) = handle_all events mqc1 w2 in
        let (ret3, mqc3, w4) = wait_poll_input mqc2 w3 in (mqc3, w4)
    | false ↦ let (ret, mqc', w') = connect mqc w in (mqc', w')
  ]

  -- The topic is `MqttClient_PubTopic`, in which the call counts the identifiers.
  unfoldable pub publish_topic : MqttClient → PubTopic → List ℕ → W → Ret × PubTopic × W
  publish_topic mqc tp payload w = elim (mqc.connected) [
    | false ↦ (ok 0, tp, w)
    | true ↦
        let (ret, w') =
          mqtt.mqtt_publish
            (record { qos = tp.qos; topic = tp.topic; payload = payload; message_id = tp.msg_id })
            w in
        (ret, record tp { msg_id = u16 (tp.msg_id + 1) }, w')
  ]

unfoldable pub set_topic : List ℕ → Qos → PubTopic
set_topic topic_str qos = record { qos = qos; topic = topic_str; msg_id = 0 }
