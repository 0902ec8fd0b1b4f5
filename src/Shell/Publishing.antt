-- ===== src/Shell/Publishing.antt =====
-- internal/shell/config_mode.go: a commit as a whole: the files that it leaves, and its errors.
use libra_flux.Base.{
  ◌≡◌, ◌⊎◌, refl, ap, ◌∙◌, inl, inr, Bool, true, false, ◌||◌, Option, none, some, List, [], ◌∷◌,
  arith, Result, ok, err, any, All, All-weaken, Option-cases,
}
use libra_flux.Base.Text.{GoString, ◌=s◌, =s_refl}
use libra_flux.Base.Assoc.{Assoc, string_eq, lookup, has, lookup-has, lookup-none-has}
use libra_flux.Base.Split.{sort_strings, any-sort_strings, All-sort_strings}
use libra_flux.Config.Types.{Config, Service}
use libra_flux.Config.Validator.{ConfigError, validate}
use libra_flux.Shell.ConfigMode.{Store, ConfigMode, keys, abort}
use libra_flux.Shell.Commit.{
  file_of, Written, staged_service, write_loop, remove_loop, Outcome, finish, write_staged,
  commit_valid, commit_loaded, commit, merged,
}
use libra_flux.Shell.Written.{
  remove_loop_other, Files, Separate, write_loop-other, write_loop-own, remove_loop-file,
}

abbrev names : ConfigMode → List GoString
names m = sort_strings (keys m.staged)

module _ {E W : Type 0} (is_ip : GoString → Bool) (store : Store E W) (m : ConfigMode) where
  abbrev pub written : W → Written E W
  written w = write_loop is_ip store m.config_dir m.staged (names m) w

  -- What a commit that returns no error did from the world in which the directory is there.
  pub record Done (o : Outcome E W) : Type 0 where
    pub start : W
    pub wrote : (written start).0 ≡ none
    pub cleared : o.mode ≡ abort m
    pub world_then :
        o.world ≡ remove_loop store m.config_dir (sort_strings (keys m.deleted)) (written start).1

  finish-Done :
      (r : Written E W)
      → (finish store m r).error ≡ none
      → (r.0 ≡ none)
        × ((finish store m r).mode ≡ abort m)
        × ((finish store m r).world
            ≡ remove_loop store m.config_dir (sort_strings (keys m.deleted)) r.1)
  unfolding finish
  finish-Done (some e, w, lines) h = absurd cc
  finish-Done (none, w, lines) h = (refl, refl, refl)

  write_staged-Done :
      (made : Option E × W)
      → (write_staged is_ip store m made).error ≡ none
      → (d : Done (write_staged is_ip store m made)) × (made.0 ≡ none) × (d.start ≡ made.1)
  unfolding write_staged
  write_staged-Done (some e, w) h = absurd cc
  write_staged-Done (none, w) h =
      let (wrote, cleared, world) = finish-Done (written w) h in
      (record { start = w; wrote = wrote; cleared = cleared; world_then = world }, refl, refl)

  commit_valid-Done :
      (c : Option ConfigError) (w : W)
      → (commit_valid is_ip store m c w).error ≡ none
      → (d : Done (commit_valid is_ip store m c w)) × (c ≡ none)
        × (d.start ≡ (store.mkdir m.config_dir w).1)
  unfolding commit_valid
  commit_valid-Done (some e) w h = absurd cc
  commit_valid-Done none w h =
      let (d, made, from) = write_staged-Done (store.mkdir m.config_dir w) h in (d, refl, from)

  commit_loaded-Done :
      (l : Result E Config) (w : W)
      → (commit_loaded is_ip store m l w).error ≡ none
      → (d : Done (commit_loaded is_ip store m l w)) × (d.start ≡ (store.mkdir m.config_dir w).1)
  unfolding commit_loaded
  commit_loaded-Done (err e) w h = absurd cc
  commit_loaded-Done (ok c) w h =
      let (d, valid, from) = commit_valid-Done (validate is_ip (merged m c)).0 w h in (d, from)

  pub commit-Done :
      (w : W)
      → (commit is_ip store m w).error ≡ none
      → (d : Done (commit is_ip store m w)) × (d.start ≡ (store.mkdir m.config_dir w).1)
  unfolding commit
  commit-Done w h = commit_loaded-Done (store.load m.config_path w) w h

-- Every service is staged under its own name.
abbrev pub Named : Assoc GoString Service → Type 0
Named staged = (n : GoString) (s : Service) → lookup n staged ≡ some s → s.name ≡ n

any-keys : {V : Type 0} (n : GoString) (m : Assoc GoString V) → any (keys m) (λ k. k =s n) ≡ has n m
unfolding any keys has
any-keys n [] = refl
any-keys n ((k, v) ∷ m) = ap (λ (b : Bool). (k =s n) || b) (any-keys n m)

keys-has : {V : Type 0} (m : Assoc GoString V) → All (λ k. has k m ≡ true) (keys m)
unfolding keys has
keys-has [] = tt
keys-has ((k, v) ∷ m) =
    (ground (arith, =s_refl k), All-weaken (keys m) (keys-has m) (λ j h. ground (arith, h)))

staged_service-name :
    (staged : Assoc GoString Service) (n : GoString)
    → Named staged
    → has n staged ≡ true
    → (staged_service n staged).name ≡ n
staged_service-name staged n named h = elim (Option-cases (lookup n staged)) [
  | inl e ↦ absurd (ground (arith, h, lookup-none-has n staged e))
  | inr (s, e) ↦ rw (e, staged_service) (named n s e)
]

names-Named :
    (m : ConfigMode) → Named m.staged → All (λ n. (staged_service n m.staged).name ≡ n) (names m)
names-Named m named =
    All-sort_strings (λ n. (staged_service n m.staged).name ≡ n) (keys m.staged)
      (All-weaken (keys m.staged) (keys-has m.staged)
        (λ n h. staged_service-name m.staged n named h))

any-named :
    {E W : Type 0} (store : Store E W) (dir : GoString) (staged : Assoc GoString Service)
    (p : GoString) (ns : List GoString)
    → All (λ n. (staged_service n staged).name ≡ n) ns
    → any ns (λ n. file_of store dir (staged_service n staged).name =s p)
      ≡ any ns (λ n. file_of store dir n =s p)
unfolding any
any-named store dir staged p [] h = refl
any-named store dir staged p (n ∷ ns) h = rw (h.0, any-named store dir staged p ns h.1) refl

-- The path is the file of one of the names.
abbrev pub is_file_of : {E W V : Type 0} → Store E W → GoString → Assoc GoString V → GoString → Bool
is_file_of store dir m p = any (keys m) (λ n. file_of store dir n =s p)

pub commit-files :
    {E W : Type 0} (is_ip : GoString → Bool) (store : Store E W)
    (read : GoString → W → Option (List Service)) (m : ConfigMode) (w : W)
    → Files store read
    → Separate store m.config_dir
    → Named m.staged
    → (commit is_ip store m w).error ≡ none
    → ((commit is_ip store m w).mode ≡ abort m)
      × ((p : GoString)
          → is_file_of store m.config_dir m.deleted p ≡ true
          → (read p (commit is_ip store m w).world ≡ none)
            ⊎ ((u : W) × (e : E) × ((store.remove p u).0 ≡ some e)
                × (is_file_of store m.config_dir m.staged p ≡ false
                    → read p (commit is_ip store m w).world ≡ read p w)))
      × ((n : GoString) (s : Service)
          → lookup n m.staged ≡ some s
          → is_file_of store m.config_dir m.deleted (file_of store m.config_dir n) ≡ false
          → read (file_of store m.config_dir n) (commit is_ip store m w).world ≡ some (s ∷ []))
      × ((p : GoString)
          → is_file_of store m.config_dir m.deleted p ≡ false
          → is_file_of store m.config_dir m.staged p ≡ false
          → read p (commit is_ip store m w).world ≡ read p w)
commit-files {E} {W} is_ip store read m w laws apart named h =
    let (d, from) = commit-Done is_ip store m w h in
    let dir = m.config_dir in
    let gone = sort_strings (keys m.deleted) in
    let last = (written is_ip store m d.start).1 in
    let sorted =
      λ (p : GoString). any-sort_strings (λ n. file_of store dir n =s p) (keys m.deleted) in
    let ends = λ (p : GoString) (out : is_file_of store dir m.deleted p ≡ false).
      remove_loop_other is_ip store read laws dir gone last p (sorted p ∙ out) in
    let unwritten = λ (p : GoString) (other : is_file_of store dir m.staged p ≡ false).
      write_loop-other is_ip store read laws dir m.staged (names m) d.start p d.wrote (
        any-named store dir m.staged p (names m) (names-Named m named)
        ∙ any-sort_strings (λ n. file_of store dir n =s p) (keys m.staged)
        ∙ other)
      ∙ rw (from, laws.read-mkdir p dir w) refl in
    (
      d.cleared,
      (λ p out.
          rw d.world_then
            (elim (remove_loop-file is_ip store read laws dir gone last p (sorted p ∙ out))
              as (λ c.
                (read p (remove_loop store dir gone last) ≡ none)
                ⊎ ((u : W) × (e : E) × ((store.remove p u).0 ≡ some e)
                    × (is_file_of store dir m.staged p ≡ false
                        → read p (remove_loop store dir gone last) ≡ read p w))) [
                          | inl none_left ↦ inl none_left
                          | inr (u, e, refused, kept) ↦
                              inr (u, e, refused, λ other. kept ∙ unwritten p other)
                        ])),
      (λ n s at stays. rw d.world_then (
          ends (file_of store dir n) stays
          ∙ write_loop-own is_ip store read laws dir m.staged (names m) d.start n d.wrote apart
              (names-Named m named)
              (any-sort_strings (λ k. k =s n) (keys m.staged)
                ∙ any-keys n m.staged
                ∙ lookup-has n m.staged at)
          ∙ rw (at, staged_service) refl)),
      (λ p out other. rw d.world_then (ends p out ∙ unwritten p other)),
    )
