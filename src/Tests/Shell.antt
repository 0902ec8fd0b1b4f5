-- ===== src/Tests/Shell.antt =====
-- internal/shell at concrete sessions, over files that are a list of paths with what they hold.
use libra_flux.Base.{
  ℕ, ◌≡◌, ◌≢◌, refl, ◌*◌, true, false, none, some, [], ◌∷◌, ◌++◌, arith, pos, ok, millisecond,
}
use libra_flux.Base.Text.{codes}
use libra_flux.Base.Assoc.{string_eq, lookup}
use libra_flux.Base.Decimal.{itoa}
use libra_flux.Base.Split.{join}
use libra_flux.Shell.Parsing.{
  parse_port_range, parse_csv_ports, parse_port_range-printed, parse_csv_ports-printed,
}
use libra_flux.Shell.Lock.{
  ℕ_eq, LockMetadata, LockIdentity, encoded, Files, System, HeldLock, acquire, unlock, unlink,
}
use libra_flux.Shell.Exclusion.{Exclusive, Holds, Numbered, after_acquire}
use libra_flux.Shell.Calls.{no_call, call, acquires, Calls-Exclusive}
use libra_flux.Shell.Gap.{Works, release-gap}
use libra_flux.Shell.Breaking.{Watch, Sleeps, Returns, break_lock, break_lock-Returns}

parse_port_range-printed_example :
    parse_port_range (itoa 8000 ++ b'-' ∷ itoa 8010)
    ≡ ok (record { start = pos 8000; end = pos 8010 })
parse_port_range-printed_example = parse_port_range-printed 8000 8010 (omega arith) (omega arith)

parse_csv_ports-printed_example :
    parse_csv_ports (join (codes ",") (itoa 80 ∷ itoa 443 ∷ [])) ≡ ok (pos 80 ∷ pos 443 ∷ [])
parse_csv_ports-printed_example =
    parse_csv_ports-printed (80 ∷ 443 ∷ []) (omega arith, (omega arith, tt))

-- A system that works, whose processes all run the shell.
abbrev working : System ℕ
working = record {
  mkdir_error = none;
  open_error = none;
  write_error = none;
  is_alive = λ p. true;
  command_name = λ p. ok (codes "lbctl");
  now = pos 100;
  default_identity = record {
    pid = pos 7;
    user = codes "root";
    host = codes "lb1";
    tty = codes "pts/0";
  };
}

abbrev operator : LockIdentity
operator = record { pid = pos 8; user = codes "ops"; host = codes "lb1"; tty = codes "pts/1" }

abbrev no_files : Files
no_files = record { at_path = none; contents = []; owners = []; next = 0 }

Calls-Exclusive_example :
    Exclusive
      (acquire (codes "lbctl") working operator no_files).1
      (after_acquire (acquire (codes "lbctl") working operator no_files).0 [])
Calls-Exclusive_example =
    Calls-Exclusive {E = ℕ} {comm = codes "lbctl"} {f = no_files} refl refl
      (call no_call (acquires working operator (λ e c h. absurd cc) tt refl refl))

abbrev held_metadata : LockMetadata
held_metadata = record {
  pid = pos 8;
  user = codes "ops";
  host = codes "lb1";
  tty = codes "pts/1";
  started_at = some (pos 50);
  last_activity = some (pos 60);
}

abbrev held_files : Files
held_files = record {
  at_path = some 0;
  contents = (0, encoded held_metadata) ∷ [];
  owners = (0, 1) ∷ [];
  next = 2;
}

abbrev held_lock : HeldLock
held_lock = record { inode = 0; file = 1; metadata = held_metadata; released = false }

held_files-Numbered : Numbered held_files
unfolding lookup
held_files-Numbered = record {
  path_used = λ i e. ground (arith, e);
  owners_used = λ i q. ground (arith, q);
}

held_lock-Holds : Holds held_lock held_files
unfolding lookup
held_lock-Holds = record {
  under_path = refl;
  own = refl;
  named = λ d e. ground (arith, e);
  unreleased = refl;
}

working-Works : Works working
working-Works = record { no_mkdir_error = refl; no_open_error = refl; no_write_error = refl }

release-gap_example :
    (b : HeldLock) × (c : HeldLock) × (let after_second =
        acquire (codes "lbctl") working operator (unlock held_lock held_files) in
      let after_third = acquire (codes "lbctl") working operator (unlink after_second.1) in
      (after_second.0 ≡ ok b)
      × (after_third.0 ≡ ok c)
      × (b.inode ≢ c.inode)
      × (lookup b.inode after_third.1.owners ≡ some b.file)
      × (lookup c.inode after_third.1.owners ≡ some c.file))
release-gap_example =
    release-gap (codes "lbctl") held_lock held_files working working operator operator
      held_files-Numbered held_lock-Holds working-Works working-Works

-- A process that does not end, watched every 50 ms.
abbrev stubborn : Watch
stubborn = record { alive = λ k. true; clock = λ k. k * (50 * millisecond) }

stubborn-Sleeps : Sleeps stubborn
stubborn-Sleeps = record { first = omega arith; later = λ k. omega arith }

break_lock-Returns_example :
    Returns stubborn held_files (break_lock working stubborn 101 true held_files)
break_lock-Returns_example = break_lock-Returns working stubborn true held_files stubborn-Sleeps
