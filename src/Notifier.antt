-- ===== src/Notifier.antt =====
-- pkg/notifier/notifier.go and pkg/notifier/template.go: the messages on scaling. The time of an
-- event and the texts of numbers and times are parameters.
pub mod Delivery
use game_server_orchestrator.Prelude.{
  String, Bool, not, none, some, Option, List, [], ◌∷◌, map, length, ltb, if◌then◌else◌,
}
use game_server_orchestrator.Prelude.Int.{ℤ, pos, leb_ℤ}
use game_server_orchestrator.Prelude.Text.{str_eq, ◌<>◌}
use game_server_orchestrator.Web.{Web, Response}

-- `Level`
abbrev pub level_info : String
level_info = "INFO"

abbrev pub level_warning : String
level_warning = "WARNING"

pub record ScalingEvent : Type 0 where
  pub timestamp : ℤ
  pub fleet : String
  pub namespace : String
  pub decision : String
  pub current_replicas : ℤ
  pub desired_replicas : ℤ
  pub reason : String
  pub nodes : List String

pub record ScalingMessage : Type 0 where
  pub title : String
  pub body : String

-- `Notifier` without its HTTP client.
pub record Notifier : Type 0 where
  pub feishu_url : String
  pub dingtalk_url : String

-- The emoji and the level of a decision, of which the level is not printed.
unfoldable pub style_of : String → String × String
style_of decision =
    if str_eq decision "SCALE_UP"
    then ("📈", level_info)
    else if str_eq decision "SCALE_DOWN"
    then ("📉", level_info)
    else if str_eq decision "FROZEN"
    then ("🚫", level_warning)
    else ("📊", level_info)

-- strings.Join
unfoldable pub join : String → List String → String
join sep [] = ""
join sep (s ∷ ss) = elim ss [ [] ↦ s | _ ∷ _ ↦ s <> sep <> join sep ss ]

-- A payload before it is encoded: an object, a list or a text.
mutual
  pub data Json : Type 0 where
    text : String → Json
    array : Items → Json
    object : Fields → Json

  pub data Items : Type 0 where
    no_items : Items
    item : Json → Items → Items

  pub data Fields : Type 0 where
    no_fields : Fields
    field : String → Json → Fields → Fields

-- `show_int` is %d and `format_time` is Time.Format with the layout of the source.
module _ (show_int format_time : ℤ → String) where
  -- The line that only an event with nodes has.
  unfoldable pub nodes_line : List String → String
  nodes_line nodes = if ltb 0 (length nodes) then "- **Nodes:** " <> join ", " nodes <> "\n" else ""

  -- `RenderScalingMessage`, without the level, which it does not read.
  unfoldable pub render_scaling_message : String → ScalingEvent → String → ScalingMessage
  render_scaling_message title event emoji = record {
    title = title;
    body =
        emoji
        <> " **"
        <> event.decision
        <> "** "
        <> event.fleet
        <> "\n\n"
        <> "- **Fleet:** "
        <> event.namespace
        <> "/"
        <> event.fleet
        <> "\n"
        <> "- **Reason:** "
        <> event.reason
        <> "\n"
        <> "- **Replicas:** "
        <> show_int event.current_replicas
        <> " → "
        <> show_int event.desired_replicas
        <> "\n"
        <> nodes_line event.nodes
        <> "\n📅 "
        <> format_time event.timestamp;
  }

-- An object with one field, or with two.
abbrev one : String → Json → Json
one key value = object (field key value no_fields)

abbrev two : String → Json → String → Json → Json
two key value key' value' = object (field key value (field key' value' no_fields))

-- The payload of `sendFeishu`.
unfoldable pub feishu_payload : ScalingMessage → Json
feishu_payload msg =
    let header = one "title" (two "content" (text msg.title) "tag" (text "plain_text")) in
    let content = two "content" (text msg.body) "tag" (text "lark_md") in
    two "msg_type" (text "interactive") "card" (
      two "header" header "elements"
        (array (item (two "tag" (text "div") "text" content) no_items)))

-- The payload of `sendDingtalk`.
unfoldable pub dingtalk_payload : ScalingMessage → Json
dingtalk_payload msg =
    two "msgtype" (text "markdown") "markdown" (two "title" (text msg.title) "text" (text msg.body))

pub data PostError : Type 0 where
  not_marshalled not_built not_sent : PostError
  refused : ℤ → PostError

-- What `post` makes of the response; `none` is no error.
unfoldable pub judge : {B : Type 0} → Option (Response B) → Option PostError
judge none = some not_sent
judge (some r) = if leb_ℤ (pos 300) r.status_code then some (refused r.status_code) else none

-- `marshal` is json.Marshal.
module _ {B W : Type 0} (web : Web B W) (marshal : Json → Option B) where
  -- `post`
  unfoldable pub post : String → Json → W → Option PostError × W
  post url payload w = elim (marshal payload) [
    | none ↦ (some not_marshalled, w)
    | some body ↦
        if web.builds url
        then (let (resp, w') = web.post url body w in (judge resp, w'))
        else (some not_built, w)
  ]

  -- A channel without an address gets nothing, and an error is only logged.
  unfoldable pub send : String → Json → W → W
  send url payload w = if not (str_eq url "") then (post url payload w).1 else w

  module _ (show_int format_time : ℤ → String) where
    -- `NotifyScalingEvent`
    unfoldable pub notify_scaling_event : Notifier → ScalingEvent → W → W
    notify_scaling_event n event w =
        let (emoji, level) = style_of event.decision in
        let msg =
          render_scaling_message show_int format_time "🎮 Game Fleet Scaling Event" event emoji in
        send n.dingtalk_url (dingtalk_payload msg) (send n.feishu_url (feishu_payload msg) w)
