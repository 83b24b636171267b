-- ===== src/Notifier/Delivery.antt =====
-- What the channels receive of an event.
use mathlib.Core.List.{append-nil}
use game_server_orchestrator.Prelude.{
  String, ◌≡◌, refl, sym, ap, ◌∙◌, Option, none, some, List, [], ◌∷◌, ◌++◌, inl, inr, Bool-cases,
  Option-cases, if◌then◌else◌,
}
use game_server_orchestrator.Prelude.Int.{ℤ}
use game_server_orchestrator.Prelude.Text.{str_eq}
use game_server_orchestrator.Web.{Web}
use game_server_orchestrator.Notifier.{
  Notifier, ScalingEvent, ScalingMessage, Json, style_of, render_scaling_message, feishu_payload,
  dingtalk_payload, post, send, notify_scaling_event,
}

-- The same outside world with the list of what is posted.
abbrev pub recording : {B W : Type 0} → Web B W → Web B (List (String × B) × W)
recording web = record {
  builds = web.builds;
  get = λ url (sent, w). let (resp, w') = web.get url w in (resp, (sent, w'));
  post = λ url body (sent, w).
      let (resp, w') = web.post url body w in (resp, (sent ++ (url, body) ∷ [], w'));
}

-- The message of an event.
abbrev pub message_of : (show_int format_time : ℤ → String) → ScalingEvent → ScalingMessage
message_of show_int format_time event =
    render_scaling_message show_int format_time "🎮 Game Fleet Scaling Event" event
      (style_of event.decision).0

module _ {B W : Type 0} (web : Web B W) (marshal : Json → Option B) where
  -- What a channel with this address receives: nothing if it has no address, if the payload cannot be
  -- encoded, or if no request can be built for the address.
  abbrev pub delivered : String → Json → List (String × B)
  delivered url payload = if str_eq url "" then [] else elim (marshal payload) [
    | none ↦ []
    | some body ↦ if web.builds url then (url, body) ∷ [] else []
  ]

  send-recording :
      (url : String) (payload : Json) (before : List (String × B) × W)
      → (send (recording web) marshal url payload before).0 ≡ before.0 ++ delivered url payload
  unfolding send post
  send-recording url payload before = elim (Bool-cases (str_eq url "")) [
    | inl off ↦ simp (off, send) (sym (append-nil before.0))
    | inr on ↦ elim (Option-cases (marshal payload)) [
      | inl bad ↦ simp (on, bad, send, post) (sym (append-nil before.0))
      | inr (body, m) ↦ elim (Bool-cases (web.builds url)) [
        | inl b ↦ simp (on, m, b, send, post) refl
        | inr b ↦ simp (on, m, b, send, post) (sym (append-nil before.0))
      ]
    ]
  ]

  -- Every channel that has an address for which a request can be built, and whose payload can be
  -- encoded, is sent the message of the event exactly once, the Feishu one first; no other request is
  -- sent, and no failure of the first channel, whether its payload, its address or its answer, keeps
  -- the second from the message.
  pub notify_scaling_event-recording :
      (show_int format_time : ℤ → String) (n : Notifier) (event : ScalingEvent)
      (sent : List (String × B)) (w : W)
      → let msg = message_of show_int format_time event in
        (notify_scaling_event (recording web) marshal show_int format_time n event (sent, w)).0
        ≡ sent
          ++ delivered n.feishu_url (feishu_payload msg)
          ++ delivered n.dingtalk_url (dingtalk_payload msg)
  unfolding notify_scaling_event
  notify_scaling_event-recording show_int format_time n event sent w =
      let msg = message_of show_int format_time event in
      let first = send (recording web) marshal n.feishu_url (feishu_payload msg) (sent, w) in
      send-recording n.dingtalk_url (dingtalk_payload msg) first
      ∙ ap (λ l. l ++ delivered n.dingtalk_url (dingtalk_payload msg))
          (send-recording n.feishu_url (feishu_payload msg) (sent, w))
