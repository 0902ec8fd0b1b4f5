-- ===== src/Shell/Written.antt =====
-- internal/shell/config_mode.go: what a commit leaves in the files of the configuration.
use libra_flux.Base.{
  ◌≡◌, ◌⊎◌, Option-cases, refl, sym, ◌∙◌, inl, inr, Bool, true, false, Option, none, some, List, [],
  ◌∷◌, arith, Result, ok, err, if◌then◌else◌, any, All, Bool-cases,
}
use libra_flux.Base.Text.{GoString, ◌=s◌, =s_iff, =s_refl}
use libra_flux.Base.Assoc.{Assoc, string_eq}
use libra_flux.Config.Types.{Service}
use libra_flux.Config.Names.{IsName}
use libra_flux.Config.Validator.{ConfigError}
use libra_flux.Config.Services.{ServiceOk}
use libra_flux.Config.Writer.{validate_single_service, validate_single_service_iff}
use libra_flux.Shell.ConfigMode.{Store}
use libra_flux.Shell.Commit.{
  CommitError, storage, file_of, write_in, write_valid, write_service_config, Written, write_next,
  staged_service, write_loop, remove_loop,
}

-- What is read back of the store: a file holds what was last written under its path, and a removal
-- that fails leaves every file as it was.
pub record Files {E W : Type 0} (store : Store E W) (read : GoString → W → Option (List Service))
    : Type 0 where
  pub read-mkdir : (p d : GoString) (w : W) → read p (store.mkdir d w).1 ≡ read p w
  pub read-write :
      (p q : GoString) (ss : List Service) (w : W)
      → (store.write_services q ss w).0 ≡ none
      → read p (store.write_services q ss w).1 ≡ (if q =s p then some ss else read p w)
  pub read-remove :
      (p q : GoString) (w : W)
      → (store.remove q w).0 ≡ none
      → read p (store.remove q w).1 ≡ (if q =s p then none else read p w)
  pub read-refused :
      (p q : GoString) (w : W) {e : E}
      → (store.remove q w).0 ≡ some e
      → read p (store.remove q w).1 ≡ read p w

-- The paths of valid names differ, since these have no separators in them.
abbrev pub Separate : {E W : Type 0} → Store E W → GoString → Type 0
Separate store dir =
    (a b : GoString) → IsName a → IsName b → file_of store dir a ≡ file_of store dir b → a ≡ b

wrapped-none :
    {E : Type 0} (o : Option E)
    → elim o [ none ↦ none | some x ↦ some (storage x) ] ≡ none
    → o ≡ none
wrapped-none none h = refl
wrapped-none (some x) h = absurd cc

module _ {E W : Type 0} (is_ip : GoString → Bool) (store : Store E W)
    (read : GoString → W → Option (List Service)) (laws : Files store read) where
  write_in-file :
      (dir : GoString) (s : Service) (made : Option E × W) (p : GoString)
      → (write_in store dir s made).0 ≡ none
      → read p (write_in store dir s made).1
        ≡ (if file_of store dir s.name =s p then some (s ∷ []) else read p made.1)
  unfolding write_in
  write_in-file dir s (some e, w) p h = absurd cc
  write_in-file dir s (none, w) p h =
      laws.read-write p (file_of store dir s.name) (s ∷ []) w
        (wrapped-none (store.write_services (file_of store dir s.name) (s ∷ []) w).0 h)

  write_valid-file :
      (dir : GoString) (s : Service) (c : Result ConfigError (Unit {0})) (w : W) (p : GoString)
      → (write_valid store dir s c w).0 ≡ none
      → (c ≡ ok tt)
        × (read p (write_valid store dir s c w).1
            ≡ (if file_of store dir s.name =s p then some (s ∷ []) else read p w))
  unfolding write_valid
  write_valid-file dir s (err e) w p h = absurd cc
  write_valid-file dir s (ok _) w p h =
      (refl, write_in-file dir s (store.mkdir dir w) p h ∙ rw (laws.read-mkdir p dir w) refl)

  -- A service that is written is well formed, and its file then holds it alone.
  write_service_config-file :
      (dir : GoString) (s : Service) (w : W) (p : GoString)
      → (write_service_config is_ip store dir s w).0 ≡ none
      → ServiceOk is_ip s
        × (read p (write_service_config is_ip store dir s w).1
            ≡ (if file_of store dir s.name =s p then some (s ∷ []) else read p w))
  unfolding write_service_config
  write_service_config-file dir s w p h =
      let (valid, content) = write_valid-file dir s (validate_single_service is_ip s) w p h in
      ((validate_single_service_iff is_ip s).0 valid, content)

  -- The path is refused once to be removed, and what was under it is still there.
  abbrev pub Refused : GoString → Option (List Service) → W → Type 0
  Refused p found w = (u : W) × (e : E) × ((store.remove p u).0 ≡ some e) × (found ≡ read p w)

  remove-apart :
      (p q : GoString) (w : W) → (q =s p) ≡ false → read p (store.remove q w).1 ≡ read p w
  remove-apart p q w h = elim (Option-cases (store.remove q w).0) [
    | inl done ↦ ground (arith, h, laws.read-remove p q w done)
    | inr (e, refused) ↦ laws.read-refused p q w refused
  ]

  remove_none : (p q : GoString) (w : W) → read p w ≡ none → read p (store.remove q w).1 ≡ none
  remove_none p q w h = elim (Option-cases (store.remove q w).0) [
    | inl done ↦ ground (arith, h, laws.read-remove p q w done)
    | inr (e, refused) ↦ laws.read-refused p q w refused ∙ h
  ]

  remove_loop-none :
      (dir : GoString) (ns : List GoString) (w : W) (p : GoString)
      → read p w ≡ none
      → read p (remove_loop store dir ns w) ≡ none
  unfolding remove_loop
  remove_loop-none dir [] w p h = h
  remove_loop-none dir (n ∷ ns) w p h =
      remove_loop-none dir ns (store.remove (file_of store dir n) w).1 p
        (remove_none p (file_of store dir n) w h)

  pub remove_loop_other :
      (dir : GoString) (ns : List GoString) (w : W) (p : GoString)
      → any ns (λ n. file_of store dir n =s p) ≡ false
      → read p (remove_loop store dir ns w) ≡ read p w
  unfolding remove_loop any
  remove_loop_other dir [] w p h = refl
  remove_loop_other dir (n ∷ ns) w p h =
      remove_loop_other dir ns (store.remove (file_of store dir n) w).1 p (ground (arith, h))
      ∙ remove-apart p (file_of store dir n) w (ground (arith, h))

  -- A file that the loop removes is gone, or a removal of it was refused and it is as it was.
  pub remove_loop-file :
      (dir : GoString) (ns : List GoString) (w : W) (p : GoString)
      → any ns (λ n. file_of store dir n =s p) ≡ true
      → (read p (remove_loop store dir ns w) ≡ none)
        ⊎ Refused p (read p (remove_loop store dir ns w)) w
  unfolding remove_loop any
  remove_loop-file dir [] w p h = absurd cc
  remove_loop-file dir (n ∷ ns) w p h =
      let q = file_of store dir n in
      let u = (store.remove q w).1 in
      let later =
        λ (same : read p u ≡ read p w) (found : any ns (λ k. file_of store dir k =s p) ≡ true).
          elim (remove_loop-file dir ns u p found)
            as (λ c.
              (read p (remove_loop store dir ns u) ≡ none)
              ⊎ Refused p (read p (remove_loop store dir ns u)) w) [
                | inl gone ↦ inl gone
                | inr (x, e, refused, kept) ↦ inr (x, e, refused, kept ∙ same)
              ] in
      elim (Bool-cases (q =s p)) [
        | inr apart ↦ later (remove-apart p q w apart) (ground (arith, h, apart))
        | inl here ↦ elim (Option-cases (store.remove q w).0) [
          | inl done ↦
              inl (remove_loop-none dir ns u p (ground (arith, here, laws.read-remove p q w done)))
          | inr (e, refused) ↦
              let same : read p u ≡ read p w = laws.read-refused p q w refused in
              elim (Bool-cases (any ns (λ k. file_of store dir k =s p))) [
                | inl more ↦ later same more
                | inr last ↦ inr (
                  w,
                  e,
                  rw (← ((=s_iff q p).0 here)) refused,
                  remove_loop_other dir ns u p last ∙ same,
                )
              ]
        ]
      ]

  write_next-parts :
      (line : GoString) (r : Option (CommitError E) × W) (next : W → Written E W)
      → (write_next line r next).0 ≡ none
      → (r.0 ≡ none) × ((next r.1).0 ≡ none) × ((write_next line r next).1 ≡ (next r.1).1)
  unfolding write_next
  write_next-parts line (some e, w) next h = absurd cc
  write_next-parts line (none, w) next h = (refl, h, refl)

  module _ (dir : GoString) (staged : Assoc GoString Service) where
    abbrev service : GoString → Service
    service n = staged_service n staged

    abbrev Success : List GoString → W → Type 0
    Success ns w = (write_loop is_ip store dir staged ns w).0 ≡ none

    abbrev after : List GoString → W → W
    after ns w = (write_loop is_ip store dir staged ns w).1

    -- The first of the files is written, and then the others.
    write_loop-parts :
        (n : GoString) (ns : List GoString) (w : W)
        → Success (n ∷ ns) w
        → (u : W) × ServiceOk is_ip (service n)
          × ((p : GoString)
              → read p u ≡ (
                  if file_of store dir (service n).name =s p
                  then some (service n ∷ [])
                  else read p w))
          × Success ns u
          × (after (n ∷ ns) w ≡ after ns u)
    unfolding write_loop
    write_loop-parts n ns w h =
        let first = write_service_config is_ip store dir (service n) w in
        let (fine, rest, same) =
          write_next-parts _ first (write_loop is_ip store dir staged ns) h in
        (
          first.1,
          (write_service_config-file dir (service n) w [] fine).0,
          (λ p. (write_service_config-file dir (service n) w p fine).1),
          rest,
          same,
        )

    pub write_loop-valid :
        (ns : List GoString) (w : W) → Success ns w → All (λ n. ServiceOk is_ip (service n)) ns
    write_loop-valid [] w h = tt
    write_loop-valid (n ∷ ns) w h =
        let (u, fine, file, rest, same) = write_loop-parts n ns w h in
        (fine, write_loop-valid ns u rest)

    -- A path that is no file of the services keeps what it holds.
    pub write_loop-other :
        (ns : List GoString) (w : W) (p : GoString)
        → Success ns w
        → any ns (λ n. file_of store dir (service n).name =s p) ≡ false
        → read p (after ns w) ≡ read p w
    unfolding any write_loop
    write_loop-other [] w p h out = refl
    write_loop-other (n ∷ ns) w p h out =
        let (u, fine, file, rest, same) = write_loop-parts n ns w h in
        rw same (ground (arith, write_loop-other ns u p rest, file p, out))

    distinct_files :
        (n : GoString) (ns : List GoString)
        → Separate store dir
        → IsName n
        → All (λ k. (service k).name ≡ k) ns
        → All (λ k. ServiceOk is_ip (service k)) ns
        → any ns (λ k. k =s n) ≡ false
        → any ns (λ k. file_of store dir (service k).name =s file_of store dir n) ≡ false
    unfolding any
    distinct_files n [] apart valid named fine out = refl
    distinct_files n (k ∷ ns) apart valid named fine out =
        elim (Bool-cases (file_of store dir (service k).name =s file_of store dir n)) [
          | inr differ ↦
              rw differ (distinct_files n ns apart valid named.1 fine.1 (ground (arith, out)))
          | inl meet ↦
              let one : k ≡ n =
                sym (named.0) ∙ apart _ n fine.0.name_ok valid ((=s_iff _ _).0 meet) in
              absurd (ground (arith, out, (=s_iff k n).1 one))
        ]

    -- The file of a staged service holds the service alone.
    pub write_loop-own :
        (ns : List GoString) (w : W) (n : GoString)
        → Success ns w
        → Separate store dir
        → All (λ k. (service k).name ≡ k) ns
        → any ns (λ k. k =s n) ≡ true
        → read (file_of store dir n) (after ns w) ≡ some (service n ∷ [])
    unfolding any write_loop
    write_loop-own [] w n h apart named found = absurd cc
    write_loop-own (k ∷ ns) w n h apart named found =
        let (u, fine, file, rest, same) = write_loop-parts k ns w h in
        rw same (elim (Bool-cases (any ns (λ j. j =s n))) [
          | inl later ↦ write_loop-own ns u n rest apart named.1 later
          | inr never ↦
              let one : k ≡ n = (=s_iff k n).0 (ground (arith, found, never)) in
              let name : (service n).name ≡ n = rw one at named.0 in
              let valid : IsName n = rw (one, name) at fine.name_ok in
              let others =
                distinct_files n ns apart valid named.1 (write_loop-valid ns u rest) never in
              write_loop-other ns u (file_of store dir n) rest others
              ∙ file (file_of store dir n)
              ∙ rw (one, name, =s_refl (file_of store dir n)) refl
        ])
