-- ===== src/Ipvs/Coherence.antt =====
-- internal/ipvs/cache.go: the cache shows what the inner manager would.
use libra_flux.Base.{
  ◌≡◌, refl, sym, ap, ◌∙◌, inl, inr, true, not, Option, none, some, List, [], ◌∷◌, arith, ℤ, Result,
  ok, err, if_elim, Bool-cases,
}
use libra_flux.Base.Text.{GoString}
use libra_flux.Base.Assoc.{lookup, insert, lookup-insert, string_eq}
use libra_flux.Ipvs.Types.{Net, Service, Destination, service_key}
use libra_flux.Ipvs.Manager.{Manager, Slice}
use libra_flux.Ipvs.Cache.{
  after_write, store_services, store_destinations, pass_through, cached_destinations, CachedManager,
  CacheConfig, new_cached_manager, is_valid, is_dest_valid, invalidate, write, get_services,
  get_destinations,
}
use libra_flux.Ipvs.Replies.{
  Call, services, destinations, create_s, update_s, delete_s, create_d, update_d, delete_d, Reply,
  service_list, destination_list, outcome, Timed, run_inner, replies_inner, run_cached,
  replies_cached, WellBehaved,
}

module _ {S : Type 0} (m : Manager S) (net : Net) (wb : WellBehaved m net) where
  -- What is cached is what the inner manager would return.
  pub record Coherent (c : CachedManager S) : Type 0 where
    pub services_true :
        (ss : List Service) → c.services ≡ some ss → (m.get_services c.inner).0 ≡ ok (some ss)
    pub destinations_true :
        (svc : Service) (ds : Slice Destination)
        → lookup (service_key net svc) c.dest_cache ≡ some ds
        → (m.get_destinations svc c.inner).0 ≡ ok ds

  new-Coherent : (s : S) (cfg : CacheConfig) → Coherent (new_cached_manager s cfg)
  unfolding new_cached_manager lookup
  new-Coherent s cfg = record { services_true = λ ss h. cc; destinations_true = λ svc ds h. cc }

  -- A call through the cache replies as the inner manager does, leaves it in the same state, and keeps
  -- the cache coherent.
  abbrev Agrees : {A : Type 0} → A × S → A × CachedManager S → Type 0
  Agrees (a, s) (b, c) = (b ≡ a) × (c.inner ≡ s) × Coherent c

  Coherent-same :
      (c c' : CachedManager S)
      → c'.inner ≡ c.inner
      → c'.services ≡ c.services
      → c'.dest_cache ≡ c.dest_cache
      → Coherent c
      → Coherent c'
  Coherent-same c c' i s d h = record {
    services_true = λ ss e. rw i (h.services_true ss (sym s ∙ e));
    destinations_true = λ svc ds e. rw i (h.destinations_true svc ds (rw d at e));
  }

  after_write-Agrees :
      (c : CachedManager S) (r : Option GoString × S)
      → ((x : GoString) → r.0 ≡ some x → r.1 ≡ c.inner)
      → Coherent c
      → Agrees r (after_write c r)
  unfolding after_write invalidate lookup
  after_write-Agrees c (none, s) atomic h =
      (refl, refl, record { services_true = λ ss e. cc; destinations_true = λ svc ds e. cc })
  after_write-Agrees c (some x, s) atomic h =
      (refl, refl, Coherent-same c _ (atomic x refl) refl refl h)

  write-Agrees :
      (call : S → Option GoString × S) (c : CachedManager S)
      → ((x : GoString) → (call c.inner).0 ≡ some x → (call c.inner).1 ≡ c.inner)
      → Coherent c
      → Agrees (call c.inner) (write call c)
  unfolding write
  write-Agrees call c = after_write-Agrees c (call c.inner)

  pass_through-Agrees :
      {A : Type 0} (c : CachedManager S) (r : A × S)
      → r.1 ≡ c.inner
      → Coherent c
      → Agrees r (pass_through c r)
  unfolding pass_through
  pass_through-Agrees c (a, s) pure h = (refl, refl, Coherent-same c _ pure refl refl h)

  store_services-Agrees :
      (later : ℤ) (c : CachedManager S) (r : Result GoString (Slice Service) × S)
      → r ≡ m.get_services c.inner
      → Coherent c
      → Agrees r (store_services later c r)
  unfolding store_services lookup
  store_services-Agrees later c (err x, s) e h =
      (refl, refl, Coherent-same c _ (ap (λ p. p.1) e ∙ wb.services_pure c.inner) refl refl h)
  store_services-Agrees later c (ok ss, s) e h =
      let pure : s ≡ c.inner = ap (λ p. p.1) e ∙ wb.services_pure c.inner in
      let got : (m.get_services c.inner).0 ≡ ok ss = sym (ap (λ p. p.0) e) in
      (
        refl,
        refl,
        record {
          services_true = λ l cached. rw pure (got ∙ ap ok cached);
          destinations_true = λ svc ds cached. cc;
        },
      )

  valid_services :
      (now : ℤ) (c : CachedManager S)
      → is_valid now c ≡ true
      → (ss : List Service) × (c.services ≡ some ss)
  unfolding is_valid
  valid_services now c h = ground arith

  services-Agrees :
      (now later : ℤ) (c : CachedManager S)
      → Coherent c
      → Agrees (m.get_services c.inner) (get_services net m now later c)
  unfolding get_services
  services-Agrees now later c h =
      let pure = wb.services_pure c.inner in
      if_elim (Agrees (m.get_services c.inner)) (not c.enabled)
        (λ off. pass_through-Agrees c (m.get_services c.inner) pure h)
        (λ on.
          if_elim (Agrees (m.get_services c.inner)) (is_valid now c)
            (λ hit.
              let (ss, cached) = valid_services now c hit in
              (
                ap ok cached ∙ sym (h.services_true ss cached),
                sym pure,
                Coherent-same c _ refl refl refl h,
              ))
            (λ miss. store_services-Agrees later c (m.get_services c.inner) refl h))

  valid_destinations :
      (now : ℤ) (key : GoString) (c : CachedManager S)
      → is_dest_valid now key c ≡ true
      → (ds : Slice Destination) × (lookup key c.dest_cache ≡ some ds)
  unfolding is_dest_valid
  valid_destinations now key c h = ground arith

  -- After a fetch for one service, the cache is right for every service.
  insert_true :
      (svc svc' : Service) (ds ds' : Slice Destination) (c : CachedManager S)
      → Coherent c
      → (m.get_destinations svc c.inner).0 ≡ ok ds
      → lookup (service_key net svc') (insert (service_key net svc) ds c.dest_cache) ≡ some ds'
      → (m.get_destinations svc' c.inner).0 ≡ ok ds'
  insert_true svc svc' ds ds' c h got e =
      let k = service_key net svc in
      let k' = service_key net svc' in
      let found = sym (lookup-insert k k' ds c.dest_cache) ∙ e in
      elim (Bool-cases (string_eq.beq k k')) [
        | inl same ↦
            wb.found_by_key svc' svc c.inner (sym ((string_eq.beq_iff k k').0 same))
            ∙ got
            ∙ ap ok (some_inj (rw same at found))
        | inr other ↦ h.destinations_true svc' ds' (rw other at found)
      ]
    where
      some_inj : {A : Type 0} {a b : A} → some a ≡ some b → a ≡ b
      some_inj e = cc

  store_destinations-Agrees :
      (later : ℤ) (svc : Service) (c : CachedManager S)
      (r : Result GoString (Slice Destination) × S)
      → r ≡ m.get_destinations svc c.inner
      → Coherent c
      → Agrees r (store_destinations later (service_key net svc) c r)
  unfolding store_destinations
  store_destinations-Agrees later svc c (err x, s) e h = (
    refl,
    refl,
    Coherent-same c _ (ap (λ p. p.1) e ∙ wb.destinations_pure svc c.inner) refl refl h,
  )
  store_destinations-Agrees later svc c (ok ds, s) e h =
      let pure : s ≡ c.inner = ap (λ p. p.1) e ∙ wb.destinations_pure svc c.inner in
      let got : (m.get_destinations svc c.inner).0 ≡ ok ds = sym (ap (λ p. p.0) e) in
      (
        refl,
        refl,
        record {
          services_true = λ l cached. rw pure (h.services_true l cached);
          destinations_true =
              λ svc' ds' cached. rw pure (insert_true svc svc' ds ds' c h got cached);
        },
      )

  destinations-Agrees :
      (now later : ℤ) (svc : Service) (c : CachedManager S)
      → Coherent c
      → Agrees (m.get_destinations svc c.inner) (get_destinations net m now later svc c)
  unfolding get_destinations cached_destinations
  destinations-Agrees now later svc c h =
      let pure = wb.destinations_pure svc c.inner in
      let key = service_key net svc in
      let inner = m.get_destinations svc c.inner in
      if_elim (Agrees inner) (not c.enabled) (λ off. pass_through-Agrees c inner pure h)
        (λ on.
          if_elim (Agrees inner) (is_dest_valid now key c)
            (λ hit.
              let (ds, cached) = valid_destinations now key c hit in
              (
                rw (cached, cached_destinations) (sym (h.destinations_true svc ds cached)),
                sym pure,
                Coherent-same c _ refl refl refl h,
              ))
            (λ miss. store_destinations-Agrees later svc c inner refl h))

  -- The reply that wraps a result.
  wrap-Agrees :
      {A : Type 0} (reply : A → Reply) (r : A × S) (q : A × CachedManager S)
      → Agrees r q
      → Agrees (reply r.0, r.1) (reply q.0, q.1)
  wrap-Agrees reply r q h = (ap reply h.0, h.1, h.2)

  call-Agrees :
      (call : Call) (now later : ℤ) (c : CachedManager S)
      → Coherent c
      → Agrees
          (run_inner m call c.inner)
          (run_cached m net (record { call = call; now = now; later = later }) c)
  unfolding run_inner run_cached
  call-Agrees services now later c h = wrap-Agrees service_list _ _ (services-Agrees now later c h)
  call-Agrees (destinations svc) now later c h =
      wrap-Agrees destination_list _ _ (destinations-Agrees now later svc c h)
  call-Agrees (create_s svc) now later c h =
      wrap-Agrees outcome _ _
        (write-Agrees (m.create_service svc) c (wb.create_s_atomic svc c.inner) h)
  call-Agrees (update_s svc) now later c h =
      wrap-Agrees outcome _ _
        (write-Agrees (m.update_service svc) c (wb.update_s_atomic svc c.inner) h)
  call-Agrees (delete_s svc) now later c h =
      wrap-Agrees outcome _ _
        (write-Agrees (m.delete_service svc) c (wb.delete_s_atomic svc c.inner) h)
  call-Agrees (create_d svc d) now later c h =
      wrap-Agrees outcome _ _
        (write-Agrees (m.create_destination svc d) c (wb.create_d_atomic svc d c.inner) h)
  call-Agrees (update_d svc d) now later c h =
      wrap-Agrees outcome _ _
        (write-Agrees (m.update_destination svc d) c (wb.update_d_atomic svc d c.inner) h)
  call-Agrees (delete_d svc d) now later c h =
      wrap-Agrees outcome _ _
        (write-Agrees (m.delete_destination svc d) c (wb.delete_d_atomic svc d c.inner) h)

  replies-Coherent :
      (calls : List Timed) (c : CachedManager S)
      → Coherent c
      → replies_cached m net calls c ≡ replies_inner m calls c.inner
  unfolding replies_cached replies_inner
  replies-Coherent [] c h = refl
  replies-Coherent (t ∷ ts) c h =
      let (same, state, next) = call-Agrees t.call t.now t.later c h in
      let rest = replies-Coherent ts (run_cached m net t c).1 next in cc (same, rest, state)

-- Through any trace of calls, at any readings of the clock and with the cache on or off, a cache that
-- starts empty gives the replies that the inner manager would have given, when nothing else writes to
-- the inner manager, whose reads change nothing, whose failed writes change nothing, and which finds
-- the backends of a service by its key.
pub replies-cached-inner :
    {S : Type 0} (m : Manager S) (net : Net)
    → WellBehaved m net
    → (cfg : CacheConfig) (calls : List Timed) (s : S)
    → replies_cached m net calls (new_cached_manager s cfg) ≡ replies_inner m calls s
unfolding new_cached_manager
replies-cached-inner m net wb cfg calls s =
    replies-Coherent m net wb calls (new_cached_manager s cfg) (new-Coherent m net wb s cfg)
