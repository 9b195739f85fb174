-- ===== src/Terminal/Shells.antt =====
-- Escaped paths and control characters, and the theorem on what a shell reads.
use file_octopus.Base.{false, true, some, [], ◌∷◌, ◌++◌, ◌≡◌, refl, js, ◌==◌}
use file_octopus.Terminal.Input.{
  escape_quotes, shell_escape_posix_path, KeyEvent, terminal_control_from_keydown,
}
use file_octopus.Terminal.Quoting.{bare, read_word, read_word-shell_escape}

quoted_quote : shell_escape_posix_path (js "it's") ≡ js "'it'\\''s'"
unfolding shell_escape_posix_path escape_quotes
quoted_quote = refl

abbrev ctrl_c : KeyEvent
ctrl_c = record {
  type = js "keydown";
  key = js "c";
  code = js "KeyC";
  ctrl_key = true;
  alt_key = false;
  meta_key = false;
}

interrupt : terminal_control_from_keydown (λ s. s) ctrl_c ≡ some (3 ∷ [])
unfolding terminal_control_from_keydown ◌==◌
interrupt = refl

read_word-shell_escape_example :
    read_word bare (shell_escape_posix_path (js "it's; rm") ++ 10 ∷ js "ls")
    ≡ some (js "it's; rm", 10 ∷ js "ls")
read_word-shell_escape_example = read_word-shell_escape (js "it's; rm") (js "ls") 10 refl
