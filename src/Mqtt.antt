-- ===== src/Mqtt.antt =====
-- watchpost/checks/mqtt.py: the verdict of the MQTT check over what the client meets. `float`, and
-- what is quoted of a payload, are parameters.
use ip_montior.Base.{String, Bool, not, if◌then◌else◌, Option, none, some, ◌<>◌, ℤ, occurs, str_eq}
use ip_montior.Check.{CheckResult, failed, passed}
use ip_montior.Config.Kinds.{MqttMonitor}

-- `aiomqtt.Message`, its payload decoded
pub record Message : Type 0 where
  pub topic : String
  pub text : String
  pub retain : Bool

-- What the block of the client ends with, given a topic: an error, the first message, or no more
-- messages. Without a topic only the connection is seen.
pub data Session : Type 0 where
  timed_out : Session
  mqtt_error : String → Session
  received : Message → Session
  ended : Session

abbrev tag : Message → String
tag msg = if msg.retain then " (retained)" else ""

abbrev or_empty : Option String → String
or_empty none = ""
or_empty (some s) = s

module _ (float : String → Option ℤ) (excerpt quoted : String → String) where
  unfoldable pub judge_payload : MqttMonitor → Message → CheckResult
  judge_payload m msg =
      if m.numeric
      then elim (float msg.text) [
        | none ↦
            failed (msg.topic <> tag msg <> " = " <> quoted (excerpt msg.text) <> " is not numeric")
        | some value ↦ passed (msg.topic <> tag msg <> " = " <> excerpt msg.text) (some value) ""
      ]
      else passed (msg.topic <> tag msg <> " = " <> excerpt msg.text) none ""

  -- `_evaluate`
  unfoldable pub evaluate : MqttMonitor → Message → CheckResult
  unfolding judge_payload
  evaluate m msg = elim m.expect [
    | none ↦ judge_payload m msg
    | some expect ↦
        if not (occurs expect msg.text)
        then failed (
            msg.topic
            <> tag msg
            <> " = "
            <> quoted (excerpt msg.text)
            <> ", expected "
            <> quoted expect)
        else judge_payload m msg
  ]

  -- `MqttCheck.probe`, with the printed address and timeout
  unfoldable pub mqtt : String → String → MqttMonitor → Session → CheckResult
  unfolding evaluate
  mqtt address timeout m s =
      let topic = or_empty m.topic in
      let listening = not (str_eq topic "") in
      elim s [
        | Session.timed_out ↦ failed (
            (if listening then "no message on " <> topic else "connect timed out")
            <> " within "
            <> timeout
            <> "s")
        | Session.mqtt_error err ↦ failed ("MQTT: " <> err)
        | Session.received msg ↦
            if listening then evaluate m msg else passed ("connected to " <> address) none ""
        | Session.ended ↦
            if listening
            then failed "subscription ended without a message"
            else passed ("connected to " <> address) none ""
      ]
