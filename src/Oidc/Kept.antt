-- ===== src/Oidc/Kept.antt =====
-- Filing entries for a service changes no link (services/oidc.go, routes/oidc.go).
use revoked.Prelude.{
  ◌≡◌, refl, sym, ap, ◌∙◌, subst, String, not, List, [], ◌∷◌, ◌++◌, ◌==◌, first, if◌then◌else◌,
  arith, Verdict, allowed, ◌>>=◌, allowed_parts, past_guard, same_answer, inl, inr, Option-cases,
  Bool-cases,
}
use revoked.Oidc.Shares.{
  Failure, Place, Store, Writes, find_item, database_error, save_sign_in_alias, alias_target,
  mark_item, mark_items, save_sign_in_section,
}
use revoked.Oidc.Given.{lookup_text}
use revoked.Oidc.Transactions.{Sharing, file_section, file_alias, file_aliases}

save_sign_in_alias-shared :
    {done : Store × String} (w : Writes) (user workspace key id : String) (s : Store)
    → save_sign_in_alias w user workspace key id s ≡ allowed done
    → done.0.shared ≡ s.shared
unfolding save_sign_in_alias
save_sign_in_alias-shared w user workspace key id s h = elim (Option-cases (alias_target s id)) [
  | inl nothing ↦ absurd (ground (arith, nothing, h))
  | inr (parent, at) ↦ ground (arith, at, h)
]

file_alias-shared :
    {done : Store × List String} (w : Writes) (p : Place) (links : List (String × String))
    (key : String) (filed : List String) (s : Store)
    → file_alias w p links key filed s ≡ allowed done
    → done.0.shared ≡ s.shared
unfolding file_alias
file_alias-shared {done} w p links key filed s h =
    let id = lookup_text links key in
    let next : Store × String → Verdict Failure (Store × List String) =
      λ saved. allowed (saved.0, if not (saved.1 == "") then filed ++ saved.1 ∷ [] else filed) in
    let aliased = save_sign_in_alias w p.user p.workspace key id s >>= next in
    elim (Bool-cases (not (id == ""))) [
      | inl chosen ↦
          let h =
            subst (λ b. (if b then aliased else allowed (s, filed)) ≡ allowed done) chosen h in
          let (saved, at, last) =
            allowed_parts (save_sign_in_alias w p.user p.workspace key id s) next h in
          ap (λ d. d.0.shared) (sym (same_answer last))
          ∙ save_sign_in_alias-shared {done = saved} w p.user p.workspace key id s at
      | inr not_chosen ↦
          let h =
            subst (λ b. (if b then aliased else allowed (s, filed)) ≡ allowed done) not_chosen h in
          ap (λ d. d.0.shared) (sym (same_answer h))
    ]

pub file_aliases-shared :
    {done : Store × List String} (w : Writes) (p : Place) (links : List (String × String))
    (keys filed : List String) (s : Store)
    → file_aliases w p links keys filed s ≡ allowed done
    → done.0.shared ≡ s.shared
unfolding file_aliases
file_aliases-shared w p links [] filed s h = ap (λ d. d.0.shared) (sym (same_answer h))
file_aliases-shared {done} w p links (key ∷ keys) filed s h =
    let (one, first, rest) =
      allowed_parts (file_alias w p links key filed s)
        (λ (d : Store × List String). file_aliases w p links keys d.1 d.0) h in
    file_aliases-shared {done = done} w p links keys one.1 one.0 rest
    ∙ file_alias-shared {done = one} w p links key filed s first

mark_item-shared :
    {done : Store} (w : Writes) (user workspace host id : String) (s : Store)
    → mark_item w user workspace host id s ≡ allowed done
    → done.shared ≡ s.shared
mark_item-shared w user workspace host id s h = elim (Option-cases (find_item id s)) [
  | inl nothing ↦ absurd (ground (arith, nothing, h))
  | inr (e, found) ↦ ground (arith, found, h)
]

mark_items-shared :
    {done : Store} (w : Writes) (user workspace host : String) (ids : List String) (s : Store)
    → mark_items w user workspace host ids s ≡ allowed done
    → done.shared ≡ s.shared
unfolding mark_items
mark_items-shared w user workspace host [] s h = ap (λ d. d.shared) (sym (same_answer h))
mark_items-shared {done} w user workspace host (id ∷ ids) s h =
    let (one, first, rest) =
      allowed_parts (mark_item w user workspace host id s) (mark_items w user workspace host ids)
        h in
    mark_items-shared {done = done} w user workspace host ids one rest
    ∙ mark_item-shared {done = one} w user workspace host id s first

save_sign_in_section-shared :
    {done : Store} (w : Writes) (p : Place) (ids : List String) (s : Store)
    → save_sign_in_section w p ids s ≡ allowed done
    → done.shared ≡ s.shared
unfolding save_sign_in_section
save_sign_in_section-shared {done} w p ids s h =
    let (marked, items, last) = allowed_parts (mark_items w p.user p.workspace _ ids s) _ h in
    let (saves, same) = past_guard (not w.saves_section) database_error _ last in
    ap (λ d. d.shared) (sym (same_answer same))
    ∙ mark_items-shared {done = marked} w p.user p.workspace _ ids s items

filed-shared :
    {done : Store} (w : Writes) (p : Place) (ids : List String) (d : Sharing)
    → d.filed ≡ ids
    → file_section w p d ≡ allowed done
    → done.shared ≡ d.store.shared
filed-shared {done} w p [] d at h =
    let h =
      subst
        (λ l.
          elim l as (λ _. Verdict Failure Store) [
            | [] ↦ allowed d.store
            | _ ∷ _ ↦ save_sign_in_section w p d.filed d.store
          ]
          ≡ allowed done)
        at h in
    ap (λ (s : Store). s.shared) (sym (same_answer h))
filed-shared {done} w p (id ∷ ids) d at h =
    save_sign_in_section-shared {done = done} w p d.filed d.store (
      subst
        (λ l.
          elim l as (λ _. Verdict Failure Store) [
            | [] ↦ allowed d.store
            | _ ∷ _ ↦ save_sign_in_section w p d.filed d.store
          ]
          ≡ allowed done)
        at h)

pub file_section-shared :
    {done : Store} (w : Writes) (p : Place) (d : Sharing)
    → file_section w p d ≡ allowed done
    → done.shared ≡ d.store.shared
file_section-shared {done} w p d h = filed-shared {done = done} w p d.filed d refl h
