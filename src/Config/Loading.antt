-- ===== src/Config/Loading.antt =====
-- internal/config/loader.go: where the services of a loaded configuration come from.
use libra_flux.Base.{
  ◌≡◌, refl, sym, ap, ◌∙◌, inl, inr, Bool, true, false, List, [], ◌∷◌, ◌++◌, arith, Result, ok, err,
  ◌>>=◌, fail_if, if◌then◌else◌, any, Bool-cases, >>=-eq-ok,
}
use mathlib.Core.List.{append_assoc, append-nil}
use libra_flux.Base.Text.{GoString, codes, ◌=s◌}
use libra_flux.Base.Split.{sort_strings}
use libra_flux.Config.Types.{Config, Service}
use libra_flux.Config.Loader.{
  Source, LoadError, parse_error, glob_error, in_service_file, services_in_main, wrapped,
  read_resolved, load_service_config, include_loop, include_pattern, include_files, load_config,
}

unwrap : {E F A : Type 0} (f : E → F) {a : A} (r : Result E A) → wrapped f r ≡ ok a → r ≡ ok a
unwrap f (ok b) h = ground (arith, h)
unwrap f (err e) h = absurd cc

fail_if-false : {F : Type 0} (e : F) (b : Bool) {u : Unit {0}} → fail_if b e ≡ ok u → b ≡ false
fail_if-false e true h = absurd cc
fail_if-false e false h = refl

module _ {E : Type 0} (src : Source E) where
  -- The services of the files, one file after another.
  abbrev pub gathered : List GoString → Result (LoadError E) (List Service)
  gathered [] = ok []
  gathered (p ∷ ps) = wrapped (in_service_file p) (load_service_config src p) >>= λ ss.
      gathered ps >>= λ more. ok (ss ++ more)

  -- The loop adds the services of all its files, when it returns no error.
  include_loop-gathered :
      (ps : List GoString) (c : Config) {d : Config}
      → include_loop src ps c ≡ ok d
      → (ss : List Service) × (gathered ps ≡ ok ss) × (d ≡ record c { services = c.services ++ ss })
  unfolding include_loop
  include_loop-gathered [] c {d} h = ([], refl, rw (append-nil c.services) (ground (arith, h)))
  include_loop-gathered (p ∷ ps) c {d} h =
      let (ss, at, rest) =
        >>=-eq-ok (wrapped (in_service_file p) (load_service_config src p))
          (λ ss. include_loop src ps (record c { services = c.services ++ ss })) h in
      let (more, all, same) =
        include_loop-gathered ps (record c { services = c.services ++ ss }) rest in
      (
        ss ++ more,
        rw (at, all) refl,
        same
            ∙ ap (λ (t : List Service). record c { services = t })
                (append_assoc c.services ss more),
      )

  -- The files that the include of a configuration names, in alphabetical order; none if it is empty.
  abbrev pub included : GoString → Config → Result (LoadError E) (List GoString)
  included path c =
      if c.include =s []
      then ok []
      else (wrapped glob_error (src.glob (include_pattern src path c.include)) >>= λ matches.
          ok (sort_strings matches))

  include_files-gathered :
      (path : GoString) (c : Config) {d : Config}
      → include_files src path c ≡ ok d
      → (ps : List GoString) × (ss : List Service) × (included path c ≡ ok ps)
        × (gathered ps ≡ ok ss)
        × (d ≡ record c { services = c.services ++ ss })
  unfolding include_files
  include_files-gathered path c {d} h = elim (Bool-cases (c.include =s [])) [
    | inl e ↦
        let same : c ≡ d = ground (arith, rw e at h) in
        (
          [],
          [],
          rw e refl,
          refl,
          sym same
              ∙ ap (λ (t : List Service). record c { services = t }) (sym (append-nil c.services)),
        )
    | inr e ↦
        let (matches, at, rest) =
          >>=-eq-ok (wrapped glob_error (src.glob (include_pattern src path c.include)))
            (λ matches. include_loop src (sort_strings matches) c) (rw e at h) in
        let (ss, all, same) = include_loop-gathered (sort_strings matches) c rest in
        (sort_strings matches, ss, rw (e, at) refl, all, same)
  ]

  -- When LoadConfig returns a configuration, no key of the main file is `services`, every file that its include
  -- names was loaded without an error, and the configuration is the one that the main file decodes
  -- to, with the services of these files after its own, file by file in alphabetical order.
  pub load_config-gathered :
      (path : GoString) {d : Config}
      → load_config src path ≡ ok d
      → (text : GoString) × (keys : List GoString) × (c : Config) × (ps : List GoString)
        × (ss : List Service) × (read_resolved src path ≡ ok text)
        × (src.top_keys text ≡ ok keys)
        × (any keys (λ k. k =s codes "services") ≡ false)
        × (src.decode text ≡ ok c)
        × (included path c ≡ ok ps)
        × (gathered ps ≡ ok ss)
        × (d ≡ record c { services = c.services ++ ss })
  unfolding load_config
  load_config-gathered path {d} h =
      let (text, read, h2) = >>=-eq-ok (read_resolved src path) _ h in
      let (keys, top, h3) = >>=-eq-ok (wrapped parse_error (src.top_keys text)) _ h2 in
      let (u, main, h4) =
        >>=-eq-ok (fail_if (any keys (λ k. k =s codes "services")) services_in_main) _ h3 in
      let (c, decoded, h5) = >>=-eq-ok (wrapped parse_error (src.decode text)) _ h4 in
      let (ps, ss, files, all, same) = include_files-gathered path c h5 in
      (
        text,
        keys,
        c,
        ps,
        ss,
        read,
        unwrap parse_error (src.top_keys text) top,
        fail_if-false services_in_main _ main,
        unwrap parse_error (src.decode text) decoded,
        files,
        all,
        same,
      )
