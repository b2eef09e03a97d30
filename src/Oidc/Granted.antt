-- ===== src/Oidc/Granted.antt =====
-- What an approval shares: the entries that were chosen, in the service's link (services/oidc.go,
-- routes/oidc.go).
use Prim.Native.String
use revoked.Prelude.{
  ◌≡◌, refl, sym, ap, ◌∙◌, subst, String, Bool, true, false, not, ◌||◌, Option, none, some, List,
  [], ◌∷◌, ◌++◌, ◌==◌, first, if◌then◌else◌, arith, eq_iff, Verdict, allowed, ◌>>=◌, allowed_parts,
  past_guard, past_lookup, same_answer, inl, inr, Bool-cases,
}
use revoked.Connections.{Held}
use revoked.SignIns.{World}
use revoked.Oidc.{Library, AuthRequest, hash_token}
use revoked.Oidc.Shares.{
  Failure, Place, Item, Shared, Store, Writes, find_item, holder, granted_item, record_invalid,
  database_error, collect, find_shared, same_place, shared_id, save_sign_in_grant, drop_name_grant,
  add_new,
}
use revoked.Oidc.Given.{Decision, Call, Given}
use revoked.Oidc.Transactions.{
  Saved, Sharing, share, share_nothing, share_choices, transact, is_paused, emptied_link, save_row,
  file_section, file_aliases,
}
use revoked.Oidc.Kept.{file_aliases-shared, file_section-shared}

-- Each choice is granted under its key: the entry chosen, or the one that it reads through, is not
-- sealed, and the entry chosen is the person's own, of the workspace.
pub data AreGranted (p : Place) (s : Store)
    : List (String × String) → List (String × String) → Type 0 where
  no_more : AreGranted p s [] []
  granted :
      (key id : String) (e : Item) {choices grants : List (String × String)}
      → find_item id s ≡ some e
      → e.user ≡ p.user
      → e.workspace ≡ p.workspace
      → (holder s e).sealed ≡ false
      → AreGranted p s choices grants
      → AreGranted p s ((key, id) ∷ choices) ((key, (holder s e).id) ∷ grants)

granted_item-parts :
    {h : Item} (p : Place) (s : Store) (id : String)
    → granted_item p.user p.workspace s id ≡ allowed h
    → (e : Item) × (find_item id s ≡ some e)
      × (e.user ≡ p.user)
      × (e.workspace ≡ p.workspace)
      × ((holder s e).sealed ≡ false)
      × (holder s e ≡ h)
granted_item-parts {h} p s id done =
    let (e, found, done) = past_lookup (find_item id s) record_invalid _ done in
    let (own, done) =
      past_guard (not (e.user == p.user) || not (e.workspace == p.workspace)) record_invalid _
        done in
    let (plain, done) = past_guard (holder s e).sealed record_invalid _ done in
    (
      e,
      found,
      ground (arith, own, eq_iff e.user p.user),
      ground (arith, own, eq_iff e.workspace p.workspace),
      plain,
      same_answer done,
    )

append_one :
    (xs ys : List (String × String)) (x : String × String) → (xs ++ x ∷ []) ++ ys ≡ xs ++ x ∷ ys
append_one [] ys x = refl
append_one (y ∷ xs) ys x = ap (λ l. y ∷ l) (append_one xs ys x)

append_none : (xs : List (String × String)) → xs ++ [] ≡ xs
append_none [] = refl
append_none (x ∷ xs) = ap (λ l. x ∷ l) (append_none xs)

collect-AreGranted :
    {found : List (String × String) × List String} (p : Place) (s : Store)
    (choices grants : List (String × String)) (records : List String)
    → collect p.user p.workspace s (grants, records) choices ≡ allowed found
    → (more : List (String × String)) × (found.0 ≡ grants ++ more) × AreGranted p s choices more
unfolding collect
collect-AreGranted p s [] grants records done =
    ([], ap (λ f. f.0) (sym (same_answer done)) ∙ sym (append_none grants), no_more)
collect-AreGranted p s ((key, id) ∷ choices) grants records done =
    let (target, item, rest) =
      allowed_parts (granted_item p.user p.workspace s id)
        (λ e.
          collect p.user p.workspace s (grants ++ (key, e.id) ∷ [], add_new records e.id) choices)
        done in
    let (e, found, own, here, plain, same) = granted_item-parts {h = target} p s id item in
    let (more, all_found, left) =
      collect-AreGranted p s choices (grants ++ (key, target.id) ∷ []) (add_new records target.id)
        rest in
    (
      (key, target.id) ∷ more,
      all_found ∙ append_one grants more (key, target.id),
      subst (λ (h : Item). AreGranted p s ((key, id) ∷ choices) ((key, h.id) ∷ more)) same
          (granted key id e found own here plain left),
    )

same_place_self : (p : Place) → same_place p p ≡ true
same_place_self p =
    ground
      (arith, eq_iff p.user p.user, eq_iff p.workspace p.workspace, eq_iff p.client_id p.client_id)

-- What an approval shares: without a choice the code comes with no grant; otherwise the service's
-- link grants the choices and nothing else, and the code comes with its grant.
abbrev pub IsShared : Place → Store → List String → List (String × String) → Saved → Type 0
IsShared p s keys [] saved = saved.grant ≡ none
IsShared p s keys (choice ∷ choices) saved =
    (l : Shared) × (find_shared p saved.store ≡ some l)
    × AreGranted p s (choice ∷ choices) l.grants
    × (token : String) × (saved.grant ≡ some (record { id = l.id; token = token; keys = keys }))

save_sign_in_grant-parts :
    {saved : Store × String} (w : Writes) (p : Place) (choices : List (String × String))
    (hash : String) (s : Store)
    → save_sign_in_grant w p choices hash s ≡ allowed saved
    → (l : Shared) × (find_shared p saved.0 ≡ some l)
      × AreGranted p s choices l.grants
      × (l.id ≡ saved.1)
unfolding save_sign_in_grant
save_sign_in_grant-parts {saved} w p choices hash s h =
    let (found, collected, rest) =
      allowed_parts (collect p.user p.workspace s ([], []) choices) _ h in
    let (saves, same) = past_guard (not w.saves_link) database_error _ rest in
    let (more, all_found, left) = collect-AreGranted {found = found} p s choices [] [] collected in
    let link : Shared = record {
      place = p;
      id = shared_id w (find_shared p s);
      label = String.◌++◌ "Sign-in at " p.client_id;
      records = found.1;
      grants = found.0;
      grant_token_hash = hash;
    } in
    (
      link,
      subst (λ (r : Store × String). find_shared p r.0 ≡ some link) (same_answer same)
          (rw (same_place_self p) refl),
      subst (AreGranted p s choices) (sym all_found) left,
      ap (λ (r : Store × String). r.1) (same_answer same),
    )

share_nothing-grant :
    (lib : Library) (c : Call) (p : Place) (body : Decision) (g : Given) (link : Option Held)
    (s : Store) {d : Sharing}
    → share_nothing lib c p body g link s ≡ allowed d
    → d.grant ≡ none
share_nothing-grant lib c p body g link s {d} h = elim (Bool-cases g.name_asked) [
  | inl asked ↦
      let next : Store × Bool → Verdict Failure Sharing = λ dropped. allowed (record {
        store = dropped.0;
        link = emptied_link dropped.1 link;
        link_id = "";
        grant = none;
        filed = body.created;
      }) in
      let plain : Sharing = record {
        store = s;
        link = link;
        link_id = "";
        grant = none;
        filed = body.created;
      } in
      let h =
        subst
          (λ b. (if b then (drop_name_grant c.writes p s >>= next) else allowed plain) ≡ allowed d)
          asked h in
      let (dropped, _, last) = allowed_parts (drop_name_grant c.writes p s) next h in
      ap (λ (r : Sharing). r.grant) (sym (same_answer last))
  | inr silent ↦ ground (arith, silent, h)
]

share_choices-parts :
    (lib : Library) (c : Call) (p : Place) (req : AuthRequest) (body : Decision) (g : Given)
    (link : Option Held) (s : Store) {d : Sharing}
    → share_choices lib c p req body g link s ≡ allowed d
    → (l : Shared) × (find_shared p d.store ≡ some l)
      × AreGranted p s g.choices l.grants
      × (token : String) × (d.grant ≡ some (record { id = l.id; token = token; keys = g.keys }))
share_choices-parts lib c p req body g link s {d} h =
    let (makes, h) = past_guard (not c.writes.makes_token) database_error _ h in
    let (saved, at, rest) =
      allowed_parts (save_sign_in_grant c.writes p g.choices (hash_token lib c.fresh_token) s) _
        h in
    let (after, filed, last) =
      allowed_parts (file_aliases c.writes p body.links req.link_keys body.created saved.0) _
        rest in
    let (l, found, choices_granted, named) =
      save_sign_in_grant-parts {saved = saved} c.writes p g.choices (hash_token lib c.fresh_token) s
        at in
    let kept : d.store.shared ≡ saved.0.shared =
      ap (λ (r : Sharing). r.store.shared) (sym (same_answer last))
      ∙ file_aliases-shared {done = after} c.writes p body.links req.link_keys body.created saved.0
          filed in
    (
      l,
      ap (λ ls. first (λ (l : Shared). same_place l.place p) ls) kept ∙ found,
      choices_granted,
      c.fresh_token,
      ap (λ (r : Sharing). r.grant) (sym (same_answer last))
          ∙ ap (λ id. some (record { id = id; token = c.fresh_token; keys = g.keys })) (sym named),
    )

share-IsShared :
    (lib : Library) (c : Call) (p : Place) (req : AuthRequest) (body : Decision) (g : Given)
    (link : Option Held) (s : Store) (choices : List (String × String)) (saved : Saved)
    {d : Sharing}
    → g.choices ≡ choices
    → share lib c p req body g link s ≡ allowed d
    → saved.store.shared ≡ d.store.shared
    → saved.grant ≡ d.grant
    → IsShared p s g.keys choices saved
unfolding share
share-IsShared lib c p req body g link s [] saved {d} at h kept same =
    let h =
      subst
        (λ l.
          elim l as (λ _. Verdict Failure Sharing) [
            | [] ↦ share_nothing lib c p body g link s
            | _ ∷ _ ↦ share_choices lib c p req body g link s
          ]
          ≡ allowed d)
        at h in
    same ∙ share_nothing-grant lib c p body g link s {d = d} h
share-IsShared lib c p req body g link s (choice ∷ choices) saved {d} at h kept same =
    let h =
      subst
        (λ l.
          elim l as (λ _. Verdict Failure Sharing) [
            | [] ↦ share_nothing lib c p body g link s
            | _ ∷ _ ↦ share_choices lib c p req body g link s
          ]
          ≡ allowed d)
        at h in
    let (l, found, choices_granted, token, gives) =
      share_choices-parts lib c p req body g link s {d = d} h in
    (
      l,
      ap (λ ls. first (λ (l : Shared). same_place l.place p) ls) kept ∙ found,
      subst (λ cs. AreGranted p s cs l.grants) at choices_granted,
      token,
      same ∙ gives,
    )

-- What the transaction of an approval shares.
pub transact-IsShared :
    {saved : Saved} (lib : Library) (c : Call) (p : Place) (req : AuthRequest) (body : Decision)
    (g : Given) (w : World) (s : Store)
    → transact lib c p req body g w s ≡ allowed saved
    → IsShared p s g.keys g.choices saved
unfolding transact
transact-IsShared {saved} lib c p req body g w s h =
    let (active, rest) = past_guard (is_paused w.row) _ _ h in
    let (done, shared, rest) =
      allowed_parts (share lib c p req body g w.link s)
        (λ done. file_section c.writes p done >>= save_row c g done w) rest in
    let (filed, section, last) =
      allowed_parts (file_section c.writes p done) (save_row c g done w) rest in
    let (taken, same) = past_guard (not c.saves_sign_in) _ _ last in
    share-IsShared lib c p req body g w.link s g.choices saved {d = done} refl shared
      (ap (λ (r : Saved). r.store.shared) (sym (same_answer same))
        ∙ file_section-shared {done = filed} c.writes p done section)
      (ap (λ (r : Saved). r.grant) (sym (same_answer same)))
