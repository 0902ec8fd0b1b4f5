-- ===== src/Shell/Lines.antt =====
-- internal/shell/shell.go: ExecuteLine, with the idle timeout, and Run over the lines of the input.
use libra_flux.Base.{
  Bool, true, false, ◌&&◌, Option, none, some, List, [], ◌∷◌, ◌++◌, ℤ, pos, ltb_ℤ, ◌-ℤ◌,
  if◌then◌else◌, when_none,
}
use libra_flux.Base.Text.{GoString, codes, ◌=s◌, trim_space}
use libra_flux.Base.Split.{fields}
use libra_flux.Shell.ConfigMode.{Store}
use libra_flux.Shell.Session.{
  Locking, Mode, root, config, service, Editing, Shell, ShellError, exit_shell, Turn, done,
  leave_configure_mode,
}
use libra_flux.Shell.Commands.{dispatch}

abbrev pub edits : Mode → Bool
edits root = false
edits config = true
edits service = true

abbrev pub leaves : {X E : Type 0} → Option (ShellError X E) → Bool
leaves none = false
leaves (some exit_shell) = true
leaves (some e) = false

module _ {L X E W : Type 0} (is_ip : GoString → Bool) (store : Store E W)
    (locks : Locking L X W) where
  -- Whether more time than the idle timeout has passed since the last activity, unless that is the zero
  -- Time.
  unfoldable pub is_idle : ℤ → Option (Editing L) → W → Bool
  is_idle timeout none w = false
  is_idle timeout (some m) w = ltb_ℤ (pos 0) timeout && elim (locks.last_activity m.lock) [
    | none ↦ false
    | some last ↦ ltb_ℤ timeout (locks.now w -ℤ last)
  ]

  -- The session that was idle is aborted and its lock released.
  unfoldable pub expire : Shell L → W → Turn L X E W
  unfolding leave_configure_mode
  expire s w =
      let (left, u) = leave_configure_mode locks s w in
      done left u (
        (codes "Session idle for "
          ++ (locks.duration_text s.idle_timeout ++ codes ". Releasing lock..."))
        ∷ codes "Aborted pending changes."
        ∷ [])

  unfoldable pub touched : Option (Editing L) → Shell L → W → Shell L × W
  touched none s w = (s, w)
  touched (some m) s w =
      let (l, u) = locks.update_activity m.lock w in
      (record s { config_mode = some (record m { lock = l }) }, u)

  -- After a line without an error, a session that edits has been active.
  unfoldable pub settle : Turn L X E W → Turn L X E W
  unfolding touched
  settle t =
      let (s, w) = touched t.shell.config_mode t.shell t.world in
      when_none t.error (if edits t.shell.mode then record t { shell = s; world = w } else t) t

  unfoldable pub execute_words : List GoString → Shell L → W → Turn L X E W
  unfolding dispatch settle
  execute_words [] s w = done s w []
  execute_words (word ∷ rest) s w =
      let help = settle (dispatch is_ip store locks s.mode (codes "help") [] s w) in
      let line = settle (dispatch is_ip store locks s.mode word rest s w) in
      if word =s codes "?" then help else line

  -- ExecuteLine
  unfoldable pub execute_line : GoString → Shell L → W → Turn L X E W
  unfolding execute_words expire is_idle fields
  execute_line given s w =
      let idle = edits s.mode && is_idle s.idle_timeout s.config_mode w in
      let line = execute_words (fields (trim_space given)) s w in
      if trim_space given =s [] then done s w [] else if idle then expire s w else line

  -- Run, up to the end of the input or to the line that leaves the shell; errors are printed.
  unfoldable pub run : List GoString → Shell L → W → Shell L × W
  unfolding execute_line
  run [] s w = (s, w)
  run (line ∷ lines) s w =
      let t = execute_line (trim_space line) s w in
      let rest = run lines t.shell t.world in if leaves t.error then (t.shell, t.world) else rest
