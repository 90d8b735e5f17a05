-- ===== src/Modes/Command/Keys.antt =====
-- The keys of the command line: `transition` of src/modes/command.rs.
use tofu_hex_editor.Prelude.{
  ℕ, ◌<◌, ◌≡◌, ◌≢◌, ◌⊎◌, refl, ap, ◌∙◌, Option, some, ◌>>=◌, length, Bool-cases, Option-cases, inl,
  inr,
}
use tofu_hex_editor.Xi.{Xi}
use tofu_hex_editor.Keys.{
  KeyCode, KeyModifiers, char, Event, key, not_key, event_to_action, chorded,
}
use tofu_hex_editor.Buffer.Collection.{BuffrCollection}
use tofu_hex_editor.Modes.Defs.{Mode, command, ModeTransition, none, new_mode}
use tofu_hex_editor.Modes.Normal.{new as new_normal}
use tofu_hex_editor.Modes.Commands.{FileSystem}
use tofu_hex_editor.Modes.Command.{
  Action, remove_this, finish, default_maps, Typing, Step, go_on, nothing, cancelled, finished, act,
  stepped, typed, transition, Reply,
}
use tofu_hex_editor.Modes.Command.Line.{IsLine, StaysLine, act-IsLine, type_char-remove_last}

-- The command line that a reply leads to, if any, is again a line.
abbrev LineOf : Mode → Type 0
LineOf (command line cursor) = IsLine (record { command = line; cursor = cursor })
LineOf _ = Unit

abbrev pub KeepsLine : Option ModeTransition → Type 0
KeepsLine (some (new_mode mode)) = LineOf mode
KeepsLine _ = Unit

-- A character is an ASCII character.
abbrev AsciiCode : KeyCode → Type 0
AsciiCode (char ch) = ch < 0x80
AsciiCode _ = Unit

abbrev pub IsAsciiKey : Event → Type 0
IsAsciiKey (key k) = AsciiCode k.code
IsAsciiKey not_key = Unit

module _ (X : Xi) (F : FileSystem) (c : BuffrCollection X) (files : F.Files) where
  -- The reply leaves the buffers and the files, and is to a line.
  abbrev Answers : Reply X F → Type 0
  Answers o = (reply : Option ModeTransition) × (o ≡ some (reply, c, files)) × KeepsLine reply

  stepped-KeepsLine :
      (action : Action) (step : Step) (t : Typing)
      → action ≢ finish
      → StaysLine action step
      → Answers (stepped X F step t c files)
  unfolding stepped
  stepped-KeepsLine action (go_on t') t ne v =
      (some (new_mode (command t'.command t'.cursor)), refl, v)
  stepped-KeepsLine action nothing t ne v = (some none, refl, tt)
  stepped-KeepsLine action cancelled t ne v = (some (new_mode new_normal), refl, tt)
  stepped-KeepsLine action finished t ne v = absurd (ne v)

  acted-KeepsLine :
      (action : Action) (t : Typing)
      → IsLine t
      → action ≢ finish
      → (action ≢ remove_this) ⊎ (t.cursor < length t.command)
      → Answers (act action t >>= λ step. stepped X F step t c files)
  acted-KeepsLine action t v ne h =
      let (step, e, stays) = act-IsLine action t v h in
      let (reply, e', keeps) = stepped-KeepsLine action step t ne stays in
      (reply, ap (λ o. o >>= λ step. stepped X F step t c files) e ∙ e', keeps)

  char-KeepsLine :
      (t : Typing) (ch : ℕ) (m : KeyModifiers)
      → IsLine t
      → ch < 0x80
      → Answers (typed X F t (key (record { code = char ch; modifiers = m })) c files)
  unfolding typed
  char-KeepsLine t ch m v a = elim (Bool-cases (chorded m)) [
    | inl held ↦ (Option.none, rw held refl, tt)
    | inr free ↦
        let (t', e, v', back) = type_char-remove_last t ch v a in
        (some (new_mode (command t'.command t'.cursor)), rw free (rw e refl), v')
  ]

  code-KeepsLine :
      (t : Typing) (code : KeyCode) (m : KeyModifiers)
      → IsLine t
      → AsciiCode code
      → Answers (typed X F t (key (record { code = code; modifiers = m })) c files)
  unfolding typed
  code-KeepsLine t (char ch) m v a = char-KeepsLine t ch m v a
  code-KeepsLine t _ m v a = (Option.none, refl, tt)

  typed-KeepsLine :
      (t : Typing) (evt : Event) → IsLine t → IsAsciiKey evt → Answers (typed X F t evt c files)
  unfolding typed
  typed-KeepsLine t not_key v a = (Option.none, refl, tt)
  typed-KeepsLine t (key k) v a = code-KeepsLine t k.code k.modifiers v a

  -- On a line of ASCII characters with the cursor in it or at its end, no event panics or changes the
  -- buffers or the files, and the command line that it leads to, if any, is again such a line: but for
  -- Enter, which runs the command, Delete at the end, and characters that are not ASCII.
  pub transition-KeepsLine :
      (t : Typing) (evt : Event)
      → IsLine t
      → IsAsciiKey evt
      → event_to_action default_maps evt ≢ some finish
      → (event_to_action default_maps evt ≢ some remove_this) ⊎ (t.cursor < length t.command)
      → (reply : Option ModeTransition) × (transition X F t evt c files ≡ some (reply, c, files))
        × KeepsLine reply
  unfolding transition
  transition-KeepsLine t evt v a ne h = elim (Option-cases (event_to_action default_maps evt)) [
    | inl e ↦
        let (reply, e', keeps) = typed-KeepsLine t evt v a in (reply, rw (e, transition) e', keeps)
    | inr (action, e) ↦
        let (reply, e', keeps) =
          acted-KeepsLine action t v (λ same. ne (e ∙ ap some same))
            (elim h [
              | inl other ↦ inl (λ same. other (e ∙ ap some same))
              | inr inside ↦ inr inside
            ]) in
        (reply, rw (e, transition) e', keeps)
  ]
