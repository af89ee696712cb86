-- ===== src/MqttClient/Publish.antt =====
-- The identifiers of the messages that are published to a topic.
use zephyr_common.Common.{
  ℕ, ◌+◌, ◌≡◌, refl, sym, ap, ◌∙◌, true, List, [], ◌∷◌, ◌++◌, u16, arith, length, append-nil,
  append_assoc,
}
use zephyr_common.MqttClient.{Mqtt, Param, MqttClient, PubTopic, Qos, publish_topic, set_topic}

-- What the library is handed to publish, by identifier and payload.
pub record IsPublisher {W : Type 0} (mqtt : Mqtt W) (published : W → List (ℕ × List ℕ))
    : Type 0 where
  pub publishes :
      (param : Param) (w : W)
      → published (mqtt.mqtt_publish param w).1
        ≡ published w ++ (param.message_id, param.payload) ∷ []

-- Payloads with the numbers from `k` on, on 16 bits.
abbrev pub numbered : ℕ → List (List ℕ) → List (ℕ × List ℕ)
numbered k [] = []
numbered k (payload ∷ payloads) = (u16 k, payload) ∷ numbered (k + 1) payloads

module _ {W : Type 0} (mqtt : Mqtt W) (published : W → List (ℕ × List ℕ))
    (is : IsPublisher mqtt published) where
  -- One call for each payload.
  unfoldable pub publish_all : MqttClient → PubTopic → List (List ℕ) → W → PubTopic × W
  publish_all mqc tp [] w = (tp, w)
  publish_all mqc tp (payload ∷ payloads) w =
      let (ret, tp', w') = publish_topic mqtt mqc tp payload w in publish_all mqc tp' payloads w'

  published_one :
      (mqc : MqttClient) (tp : PubTopic) (payload : List ℕ) (w : W)
      → mqc.connected ≡ true
      → let param : Param = record {
        qos = tp.qos;
        topic = tp.topic;
        payload = payload;
        message_id = tp.msg_id;
      } in
        publish_topic mqtt mqc tp payload w ≡ (
          (mqtt.mqtt_publish param w).0,
          record tp { msg_id = u16 (tp.msg_id + 1) },
          (mqtt.mqtt_publish param w).1,
        )
  unfolding publish_topic
  published_one mqc tp payload w on = rw (publish_topic, on)

  publish_all-numbered_from :
      (mqc : MqttClient) (k : ℕ) (tp : PubTopic) (payloads : List (List ℕ)) (w : W)
      → mqc.connected ≡ true
      → tp.msg_id ≡ u16 k
      → let (tp', w') = publish_all mqc tp payloads w in
        (published w' ≡ published w ++ numbered k payloads)
        × (tp'.msg_id ≡ u16 (k + length payloads))
  unfolding publish_all publish_topic
  publish_all-numbered_from mqc k tp [] w on e = (sym (append-nil (published w)), omega (arith, e))
  publish_all-numbered_from mqc k tp (payload ∷ payloads) w on e =
      let param : Param = record {
        qos = tp.qos;
        topic = tp.topic;
        payload = payload;
        message_id = tp.msg_id;
      } in
      let next : PubTopic = record tp { msg_id = u16 (tp.msg_id + 1) } in
      let w1 = (mqtt.mqtt_publish param w).1 in
      let (all, id) =
        publish_all-numbered_from mqc (k + 1) next payloads w1 on (omega (arith, e)) in
      let later = numbered (k + 1) payloads in
      let run : publish_topic mqtt mqc tp payload w ≡ ((mqtt.mqtt_publish param w).0, next, w1) =
        published_one mqc tp payload w on in
      (
        ap (λ r. published (publish_all mqc r.1 payloads r.2).1) run
            ∙ (all
                ∙ (ap (λ t. t ++ later) (is.publishes param w)
                    ∙ (append_assoc (published w) ((tp.msg_id, payload) ∷ []) later
                        ∙ ap (λ i. published w ++ (i, payload) ∷ later) e))),
        ap (λ r. (publish_all mqc r.1 payloads r.2).0.msg_id) run ∙ (id ∙ omega arith),
      )

  -- Payloads that are published to a fresh topic while there is a connection go to the library in
  -- their order, with the identifiers 0, 1 and so on, on 16 bits: the first one, and one in every
  -- 2 ^ 16, has the identifier 0.
  pub publish_all-numbered :
      (mqc : MqttClient) (topic : List ℕ) (qos : Qos) (payloads : List (List ℕ)) (w : W)
      → mqc.connected ≡ true
      → let (tp', w') = publish_all mqc (set_topic topic qos) payloads w in
        (published w' ≡ published w ++ numbered 0 payloads) × (tp'.msg_id ≡ u16 (length payloads))
  unfolding set_topic
  publish_all-numbered mqc topic qos payloads w on =
      let (all, id) = publish_all-numbered_from mqc 0 (set_topic topic qos) payloads w on refl in
      (all, id ∙ omega arith)
