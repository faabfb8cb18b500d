-- ===== src/Memory/Registry/Default.antt =====
-- The default provider of the registry.
use agent_os.Memory.Registry.{
  Registry, RegistryError, first_key, is_default, find_default, empty_registry, register,
  unregister, get_default, set_default, clear_providers, Operation, add, drop, choose, clear, apply,
  apply_all, or_same,
}
use agent_os.Base.{
  String, string_eq, nat_eq, true, false, ◌&&◌, List, [], ◌∷◌, Option, none, some, ◌==◌, ◌≡◌, refl,
  ◌↔◌, if◌then◌else◌, if-elim, arith, Bool-cases, inl, inr, Result, ok, err, beq_refl,
}
use agent_os.Base.Map.{Map, get, put, remove, has, size, get-put, get-remove}

-- The default is a registered provider, and there is one if there is any provider.
abbrev Chosen : {P : Type 0} → Option String → Map String P → Type 0
Chosen none m = m ≡ []
Chosen (some id) m = has m id ≡ true

module _ {P : Type 0} where
  pub record HasDefault (s : Registry P) : Type 0 where
    pub chosen : Chosen s.default_provider_id s.providers

  register-Chosen :
      (d : Option String) (m : Map String P) (id : String) (p : P)
      → has m id ≡ false
      → Chosen d m
      → Chosen (if size (put m id p) == 1 then some id else d) (put m id p)
  unfolding get put
  register-Chosen none m id p new c = rw c (rw (beq_refl id) refl)
  register-Chosen (some d) m id p new c =
      if-elim (λ o. Chosen o (put m id p)) (size (put m id p) == 1)
        (rw (get-put m id p id, beq_refl id) refl) (ground (arith, get-put m id p d))

  first_key-Chosen : (m : Map String P) → Chosen (first_key m) m
  unfolding get
  first_key-Chosen [] = refl
  first_key-Chosen ((k, v) ∷ m) = rw (beq_refl k) refl

  unregister-Chosen :
      (d : Option String) (m : Map String P) (id : String)
      → Chosen d m
      → Chosen (if has m id && is_default d id then first_key (remove m id) else d) (remove m id)
  unfolding is_default get remove
  unregister-Chosen none m id c = rw c refl
  unregister-Chosen (some d) m id c = elim (Bool-cases (has m id && d == id)) [
    | inl h ↦ rw h (first_key-Chosen (remove m id))
    | inr h ↦
        rw h (ground (arith, get-remove m id d, string_eq.beq_iff d id, string_eq.beq_iff id d))
  ]

  or_same-HasDefault :
      (s : Registry P) (r : Result RegistryError (Registry P))
      → HasDefault s
      → ((t : Registry P) → r ≡ ok t → HasDefault t)
      → HasDefault (or_same s r)
  or_same-HasDefault s (ok t) h k = k t refl
  or_same-HasDefault s (err e) h k = h

  add-HasDefault :
      (id : String) (p : P) (s : Registry P) → HasDefault s → HasDefault (apply (add id p) s)
  unfolding apply register
  add-HasDefault id p s h = elim (Bool-cases (has s.providers id)) [
    | inl old ↦ rw old h
    | inr new ↦
        rw new
          (record { chosen = register-Chosen s.default_provider_id s.providers id p new h.chosen })
  ]

  choose-HasDefault :
      (id : String) (s : Registry P) → HasDefault s → HasDefault (apply (choose id) s)
  unfolding apply set_default
  choose-HasDefault id s h = elim (Bool-cases (has s.providers id)) [
    | inl old ↦ rw old (record { chosen = old })
    | inr new ↦ rw new h
  ]

  apply-HasDefault : (o : Operation P) (s : Registry P) → HasDefault s → HasDefault (apply o s)
  unfolding apply unregister clear_providers
  apply-HasDefault (add id p) s h = add-HasDefault id p s h
  apply-HasDefault (drop id) s h = record {
    chosen = unregister-Chosen s.default_provider_id s.providers id h.chosen;
  }
  apply-HasDefault (choose id) s h = choose-HasDefault id s h
  apply-HasDefault clear s h = record { chosen = refl }

  apply_all-HasDefault :
      (os : List (Operation P)) (s : Registry P) → HasDefault s → HasDefault (apply_all os s)
  unfolding apply_all
  apply_all-HasDefault [] s h = h
  apply_all-HasDefault (o ∷ os) s h = apply_all-HasDefault os (apply o s) (apply-HasDefault o s h)

  find_default-none :
      (d : Option String) (m : Map String P) → Chosen d m → find_default d m ≡ none → m ≡ []
  find_default-none none m c h = c
  find_default-none (some id) m c h = absurd (ground (arith, c, h))

  none-find_default : (d : Option String) (m : Map String P) → m ≡ [] → find_default d m ≡ none
  unfolding get
  none-find_default none m e = refl
  none-find_default (some id) m e = rw e refl

  -- Whatever is registered, removed, chosen and cleared, in any order, the default is a registered
  -- provider: `getDefault` finds none only when none is registered.
  pub get_default-apply_all :
      (os : List (Operation P))
      → let s = apply_all os empty_registry in (get_default s ≡ none) ↔ (s.providers ≡ [])
  unfolding get_default empty_registry
  get_default-apply_all os =
      let s = apply_all os empty_registry in
      let h = apply_all-HasDefault os empty_registry (record { chosen = refl }) in
      (
        find_default-none s.default_provider_id s.providers h.chosen,
        none-find_default s.default_provider_id s.providers,
      )
