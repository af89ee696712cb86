-- ===== src/MqttClient/Events.antt =====
-- What the handler of events asks the library for, and what it takes the connection for.
use zephyr_common.Common.{
  ℕ, zero, suc, if◌then◌else◌, ◌≡◌, ◌⊎◌, refl, sym, ap, ◌∙◌, inl, inr, Bool, true, false, List, [],
  ◌∷◌, ◌++◌, ◌==◌, Ret, ok, err, Errno, append-nil, Bool-cases,
}
use zephyr_common.MqttClient.{
  Qos, at_most_once, at_least_once, exactly_once, Event, connack, disconnect, suback, unsuback,
  puback, pubrel, pubcomp, pubrec, publish, pingresp, other, Mqtt, MqttClient, acknowledge,
  event_handler,
}

-- The packets PUBREL, PUBREC, PUBACK and PUBCOMP of a message.
pub data Packet : Type 0 where
  release receive ack complete : ℕ → Packet

-- `asked` is a log of the packets that the library has been asked to send, whether or not it could:
-- a call puts down its packet, and the read of a payload puts down none.
pub record IsMqtt {W : Type 0} (mqtt : Mqtt W) (asked : W → List Packet) : Type 0 where
  pub releases :
      (id : ℕ) (w : W) → asked (mqtt.mqtt_publish_qos2_release id w).1 ≡ asked w ++ release id ∷ []
  pub receives :
      (id : ℕ) (w : W) → asked (mqtt.mqtt_publish_qos2_receive id w).1 ≡ asked w ++ receive id ∷ []
  pub reads :
      (buffer : List ℕ) (w : W) → asked (mqtt.mqtt_read_publish_payload buffer w).2 ≡ asked w

-- The answer that the MQTT protocol asks of a client for an event: PUBREL for a PUBREC, PUBCOMP for
-- a PUBREL, PUBACK for a message of quality 1 and PUBREC for one of quality 2; none after an error.
abbrev pub owed : Event → List Packet
owed (pubrec result id) = if result == 0 then release id ∷ [] else []
owed (pubrel result id) = if result == 0 then complete id ∷ [] else []
owed (publish result id at_most_once) = []
owed (publish result id at_least_once) = if result == 0 then ack id ∷ [] else []
owed (publish result id exactly_once) = if result == 0 then receive id ∷ [] else []
owed (connack result) = []
owed (disconnect result) = []
owed (suback result) = []
owed (unsuback result) = []
owed (puback result) = []
owed (pubcomp result) = []
owed pingresp = []
owed other = []

-- Where the answer is left out: to a PUBREL, to a message of quality 1, and to one of quality 2 of
-- which no byte is read.
abbrev pub missing : Event → Ret → Bool
missing (pubrel result id) num = true
missing (publish result id at_least_once) num = true
missing (publish result id exactly_once) (ok zero) = true
missing (publish result id exactly_once) (ok (suc n)) = false
missing (publish result id exactly_once) (err e) = true
missing (publish result id at_most_once) num = false
missing (pubrec result id) num = false
missing (connack result) num = false
missing (disconnect result) num = false
missing (suback result) num = false
missing (unsuback result) num = false
missing (puback result) num = false
missing (pubcomp result) num = false
missing pingresp num = false
missing other num = false

-- The packets asked for, where a payload of `num` bytes can be read.
abbrev due : Event → Ret → List Packet
due (pubrec result id) num = if result == 0 then release id ∷ [] else []
due (publish result id exactly_once) (ok (suc n)) = if result == 0 then receive id ∷ [] else []
due (publish result id exactly_once) (ok zero) = []
due (publish result id exactly_once) (err e) = []
due (publish result id at_most_once) num = []
due (publish result id at_least_once) num = []
due (connack result) num = []
due (disconnect result) num = []
due (suback result) num = []
due (unsuback result) num = []
due (puback result) num = []
due (pubrel result id) num = []
due (pubcomp result) num = []
due pingresp num = []
due other num = []

due-owed :
    (event : Event) (num : Ret) → due event num ≡ (if missing event num then [] else owed event)
due-owed (publish result id exactly_once) (ok (suc n)) = refl
due-owed (publish result id exactly_once) (ok zero) = refl
due-owed (publish result id exactly_once) (err e) = refl
due-owed (publish result id at_most_once) num = refl
due-owed (publish result id at_least_once) num = refl
due-owed (pubrec result id) num = refl
due-owed (connack result) num = refl
due-owed (disconnect result) num = refl
due-owed (suback result) num = refl
due-owed (unsuback result) num = refl
due-owed (puback result) num = refl
due-owed (pubrel result id) num = refl
due-owed (pubcomp result) num = refl
due-owed pingresp num = refl
due-owed other num = refl

-- Whether there is a connection after an event.
abbrev pub now : Event → Bool → Bool
now (connack result) before = result == 0
now (disconnect result) before = false
now (suback result) before = before
now (unsuback result) before = before
now (puback result) before = before
now (pubrel result id) before = before
now (pubcomp result) before = before
now (pubrec result id) before = before
now (publish result id qos) before = before
now pingresp before = before
now other before = before

module _ {W : Type 0} (mqtt : Mqtt W) (asked : W → List Packet) (is : IsMqtt mqtt asked) where
  acknowledge-receive :
      (qos : Qos) (result id n : ℕ) (w : W)
      → (result == 0) ≡ true
      → asked (acknowledge mqtt qos id w) ≡ asked w ++ due (publish result id qos) (ok (suc n))
  unfolding acknowledge
  acknowledge-receive exactly_once result id n w zero_result = rw zero_result (is.receives id w)
  acknowledge-receive at_most_once result id n w zero_result = sym (append-nil (asked w))
  acknowledge-receive at_least_once result id n w zero_result = sym (append-nil (asked w))

  nothing_due :
      (qos : Qos) (result id : ℕ) (num : Ret)
      → (result == 0) ≡ false
      → due (publish result id qos) num ≡ []
  nothing_due exactly_once result id (ok zero) h = refl
  nothing_due exactly_once result id (ok (suc n)) h = rw h
  nothing_due exactly_once result id (err e) h = refl
  nothing_due at_most_once result id num h = refl
  nothing_due at_least_once result id num h = refl

  none_read :
      (qos : Qos) (result id : ℕ) (num : Ret)
      → (num ≡ ok 0) ⊎ ((e : Errno) × (num ≡ err e))
      → due (publish result id qos) num ≡ []
  none_read exactly_once result id num (inl h) = rw h
  none_read exactly_once result id num (inr (e, h)) = rw h
  none_read at_most_once result id num h = refl
  none_read at_least_once result id num h = refl

  -- What the handler of an event does.
  abbrev Handles : Event → MqttClient → W → Ret → MqttClient × W → Type 0
  Handles event mqc w num (mqc', w') =
      (asked w' ≡ asked w ++ due event num) × (mqc'.connected ≡ now event mqc.connected)

  module _ (result id : ℕ) (qos : Qos) (mqc : MqttClient) (w : W) where
    refused : (result == 0) ≡ false → event_handler mqtt (publish result id qos) mqc w ≡ (mqc, w)
    unfolding event_handler
    refused h = rw (event_handler, h)

    module _ (buffer : List ℕ) (w' : W) (h : (result == 0) ≡ true) where
      read_some :
          (n : ℕ)
          → mqtt.mqtt_read_publish_payload mqc.publish_rx_buffer w ≡ (ok (suc n), buffer, w')
          → event_handler mqtt (publish result id qos) mqc w
            ≡ (record mqc { publish_rx_buffer = buffer }, acknowledge mqtt qos id w')
      unfolding event_handler
      read_some n read = rw (event_handler, h, read, read)

      read_zero :
          mqtt.mqtt_read_publish_payload mqc.publish_rx_buffer w ≡ (ok 0, buffer, w')
          → event_handler mqtt (publish result id qos) mqc w
            ≡ (record mqc { publish_rx_buffer = buffer }, w')
      unfolding event_handler
      read_zero read = rw (event_handler, h, read, read)

      read_error :
          (e : Errno)
          → mqtt.mqtt_read_publish_payload mqc.publish_rx_buffer w ≡ (err e, buffer, w')
          → event_handler mqtt (publish result id qos) mqc w
            ≡ (record mqc { publish_rx_buffer = buffer }, w')
      unfolding event_handler
      read_error e read = rw (event_handler, h, read, read)

    publish-Handles :
        (read : Ret × List ℕ × W)
        → mqtt.mqtt_read_publish_payload mqc.publish_rx_buffer w ≡ read
        → Handles
            (publish result id qos)
            mqc
            w
            (read.0)
            (event_handler mqtt (publish result id qos) mqc w)
    publish-Handles (num, buffer, w') read = elim (Bool-cases (result == 0)) [
      | inr bad ↦
          let run = refused bad in
          (
            ap (λ r. asked r.1) run
                ∙ (sym (append-nil (asked w))
                    ∙ ap (λ t. asked w ++ t) (sym (nothing_due qos result id num bad))),
            ap (λ r. r.0.connected) run,
          )
      | inl fine ↦ split num read fine
    ]
      where
        kept :
            (num : Ret) (buffer : List ℕ) (w' : W)
            → mqtt.mqtt_read_publish_payload mqc.publish_rx_buffer w ≡ (num, buffer, w')
            → asked w' ≡ asked w
        kept num buffer w' read = ap (λ t. asked t.2) (sym read) ∙ is.reads mqc.publish_rx_buffer w

        split :
            (num : Ret)
            → mqtt.mqtt_read_publish_payload mqc.publish_rx_buffer w ≡ (num, buffer, w')
            → (result == 0) ≡ true
            → Handles
                (publish result id qos)
                mqc
                w
                num
                (event_handler mqtt (publish result id qos) mqc w)
        split (ok (suc n)) read fine =
            let run = read_some buffer w' fine n read in
            (
              ap (λ r. asked r.1) run
                  ∙ (acknowledge-receive qos result id n w' fine
                      ∙ ap (λ t. t ++ due (publish result id qos) (ok (suc n)))
                          (kept (ok (suc n)) buffer w' read)),
              ap (λ r. r.0.connected) run,
            )
        split (ok zero) read fine =
            let run = read_zero buffer w' fine read in
            (
              ap (λ r. asked r.1) run
                  ∙ (kept (ok 0) buffer w' read
                      ∙ (sym (append-nil (asked w))
                          ∙ ap (λ t. asked w ++ t)
                              (sym (none_read qos result id (ok 0) (inl refl))))),
              ap (λ r. r.0.connected) run,
            )
        split (err e) read fine =
            let run = read_error buffer w' fine e read in
            (
              ap (λ r. asked r.1) run
                  ∙ (kept (err e) buffer w' read
                      ∙ (sym (append-nil (asked w))
                          ∙ ap (λ t. asked w ++ t)
                              (sym (none_read qos result id (err e) (inr (e, refl)))))),
              ap (λ r. r.0.connected) run,
            )

  handled :
      (event : Event) (mqc : MqttClient) (w : W)
      → Handles event mqc w
          (mqtt.mqtt_read_publish_payload mqc.publish_rx_buffer w).0
          (event_handler mqtt event mqc w)
  unfolding event_handler
  handled (publish result id qos) mqc w =
      publish-Handles result id qos mqc w (mqtt.mqtt_read_publish_payload mqc.publish_rx_buffer w)
        refl
  handled (pubrec result id) mqc w = elim (Bool-cases (result == 0)) [
    | inl fine ↦ rw (event_handler, fine) (is.releases id w, refl)
    | inr bad ↦ rw (event_handler, bad) (sym (append-nil (asked w)), refl)
  ]
  handled (connack result) mqc w = (sym (append-nil (asked w)), refl)
  handled (disconnect result) mqc w = (sym (append-nil (asked w)), refl)
  handled (suback result) mqc w = (sym (append-nil (asked w)), refl)
  handled (unsuback result) mqc w = (sym (append-nil (asked w)), refl)
  handled (puback result) mqc w = (sym (append-nil (asked w)), refl)
  handled (pubrel result id) mqc w = (sym (append-nil (asked w)), refl)
  handled (pubcomp result) mqc w = (sym (append-nil (asked w)), refl)
  handled pingresp mqc w = (sym (append-nil (asked w)), refl)
  handled other mqc w = (sym (append-nil (asked w)), refl)

  -- The handler of an event asks the library for the answer that the MQTT protocol asks of a
  -- client and for nothing else, but for three cases in which it leaves the answer out: a PUBREL,
  -- which gets no PUBCOMP, a message of quality 1, which gets no PUBACK, and a message of quality 2
  -- of which no byte is read, as of an empty one, which gets no PUBREC. The client is connected
  -- after it exactly if the event is a CONNACK without an error, or it was connected before and the
  -- event is neither CONNACK nor DISCONNECT.
  pub event_handler-Handles :
      (event : Event) (mqc : MqttClient) (w : W)
      → let num = (mqtt.mqtt_read_publish_payload mqc.publish_rx_buffer w).0 in
        let (mqc', w') = event_handler mqtt event mqc w in
        (asked w' ≡ asked w ++ (if missing event num then [] else owed event))
        × (mqc'.connected ≡ now event mqc.connected)
  event_handler-Handles event mqc w =
      let num = (mqtt.mqtt_read_publish_payload mqc.publish_rx_buffer w).0 in
      let (packets, connection) = handled event mqc w in
      (packets ∙ ap (λ t. asked w ++ t) (due-owed event num), connection)
