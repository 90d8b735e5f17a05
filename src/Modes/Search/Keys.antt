-- ===== src/Modes/Search/Keys.antt =====
-- The keys of search mode: `transition` of src/modes/search.rs.
use tofu_hex_editor.Prelude.{
  ◌≡◌, ◌≢◌, refl, ap, ◌∙◌, Option, some, ◌>>=◌, Bool-cases, Option-cases, inl, inr,
}
use tofu_hex_editor.Xi.{Xi}
use tofu_hex_editor.Keys.{KeyCode, KeyModifiers, char, Event, key, not_key, event_to_action}
use tofu_hex_editor.Buffer.{CurrentBuffer}
use tofu_hex_editor.Modes.Defs.{
  Mode, search, Acceptor, ModeTransition, none, new_mode, Reply, taken,
}
use tofu_hex_editor.Modes.Normal.{new as new_normal}
use tofu_hex_editor.Modes.Pattern.{Matching}
use tofu_hex_editor.Modes.Search.{
  Action, finish, default_maps, Typing, Step, go_on, nothing, cancelled, finished, act, modified,
  to_mode, stepped, typed, transition,
}
use tofu_hex_editor.Modes.Search.Cursor.{
  IsTyped, KeepsTyped, KeepsTyped?, act-IsTyped, type_char-IsTyped,
}

-- The cursor of the search that a reply leads to, if any, is in its pattern, and on a piece while a
-- half digit is awaited.
abbrev SearchOf : Mode → Type 0
SearchOf (search pieces cursor hex hex_half next) =
    IsTyped (record { pieces = pieces; cursor = cursor; hex = hex; hex_half = hex_half })
SearchOf _ = Unit

abbrev pub KeepsSearch : Option ModeTransition → Type 0
KeepsSearch (some (new_mode mode)) = SearchOf mode
KeepsSearch _ = Unit

module _ (X : Xi) (m : Matching) (next : Acceptor) (buf : CurrentBuffer X) where
  -- The reply leaves the buffer, and keeps the cursor in the pattern.
  abbrev Answers : Reply X → Type 0
  Answers o = (reply : Option ModeTransition) × (o ≡ some (reply, buf)) × KeepsSearch reply

  stepped-KeepsSearch :
      (action : Action) (step : Step)
      → action ≢ finish
      → KeepsTyped action step
      → Answers (taken X (stepped X m step next buf))
  unfolding stepped
  stepped-KeepsSearch action (go_on t) ne k = (some (new_mode (to_mode X m t next)), refl, k)
  stepped-KeepsSearch action nothing ne k = (some none, refl, tt)
  stepped-KeepsSearch action cancelled ne k = (some (new_mode new_normal), refl, tt)
  stepped-KeepsSearch action (finished pieces) ne k = absurd (ne k)

  acted-KeepsSearch :
      (action : Action) (t : Typing)
      → IsTyped t
      → action ≢ finish
      → Answers (taken X (act action t >>= λ step. stepped X m step next buf))
  acted-KeepsSearch action t v ne =
      let (step, e, k) = act-IsTyped action t v in
      let (reply, e', keeps) = stepped-KeepsSearch action step ne k in
      (reply, ap (λ o. taken X (o >>= λ step. stepped X m step next buf)) e ∙ e', keeps)

  -- What a character leads to, where the mode takes it or not.
  answered : Option Typing → Reply X
  answered o = elim o [
    | some t ↦ some (some (new_mode (to_mode X m t next)), buf)
    | Option.none ↦ some (Option.none, buf)
  ]

  answered-KeepsSearch : (o : Option Typing) → KeepsTyped? o → Answers (answered o)
  unfolding answered
  answered-KeepsSearch (some t) k = (some (new_mode (to_mode X m t next)), refl, k)
  answered-KeepsSearch Option.none k = (Option.none, refl, tt)

  code-KeepsSearch :
      (t : Typing) (code : KeyCode) (held : KeyModifiers)
      → IsTyped t
      → Answers (typed X m t next (key (record { code = code; modifiers = held })) buf)
  unfolding typed answered
  code-KeepsSearch t (char ch) held v = elim (Bool-cases (modified held)) [
    | inl h ↦ (Option.none, rw h refl, tt)
    | inr f ↦
        let (o, e, k) = type_char-IsTyped t ch v in
        let (reply, e', keeps) = answered-KeepsSearch o k in
        (reply, rw f (ap (λ o. o >>= answered) e ∙ e'), keeps)
  ]
  code-KeepsSearch t _ held v = (Option.none, refl, tt)

  typed-KeepsSearch : (t : Typing) (evt : Event) → IsTyped t → Answers (typed X m t next evt buf)
  unfolding typed
  typed-KeepsSearch t not_key v = (Option.none, refl, tt)
  typed-KeepsSearch t (key k) v = code-KeepsSearch t k.code k.modifiers v

  -- Where the cursor is in the pattern, and on a piece while a half digit is awaited, no event but
  -- Enter, which applies the search, makes search mode panic or changes the buffer, and in the search
  -- that it leads to, if any, the same holds again.
  pub transition-KeepsSearch :
      (t : Typing) (evt : Event)
      → IsTyped t
      → event_to_action default_maps evt ≢ some finish
      → (reply : Option ModeTransition) × (transition X m t next evt buf ≡ some (reply, buf))
        × KeepsSearch reply
  unfolding transition
  transition-KeepsSearch t evt v ne = elim (Option-cases (event_to_action default_maps evt)) [
    | inl e ↦
        let (reply, e', keeps) = typed-KeepsSearch t evt v in (reply, rw (e, transition) e', keeps)
    | inr (action, e) ↦
        let (reply, e', keeps) = acted-KeepsSearch action t v (λ same. ne (e ∙ ap some same)) in
        (reply, rw (e, transition) e', keeps)
  ]
