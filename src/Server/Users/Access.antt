-- ===== src/Server/Users/Access.antt =====
-- The user store: who is let in after an operation.
use hold_the_donut.Prelude.{
  ℕ, ◌≤◌, ◌≡◌, inl, inr, refl, sym, ap, ◌∙◌, arith, Bool, true, false, not, ◌&&◌, ◌||◌, Option,
  List, [], ◌∷◌, ◌++◌, map, length, ◌==◌, any, bytes_eq, bytes_eq_refl, bytes_eq→eq, Bool-cases, ok,
  All, All-append, ==_iff,
}
use hold_the_donut.Core.Id.{UserId, IsUserId}
use hold_the_donut.Core.Auth.{UserAuth, store, is_authorized, handle_is_authorized}
use hold_the_donut.Core.Auth.Membership.{is_authorized-any}
use hold_the_donut.Server.Users.{
  UserRecord, Json, Disk, UserStore, auth_of, chosen, persist, commit, add, retain, remove_user,
}
use hold_the_donut.Server.Users.Durable.{
  IsLive, added, add-duplicate, add-fresh, remove-none, remove-some,
}

abbrev pub IsRecord : UserRecord → Type 0
IsRecord r = IsUserId r.uuid

-- `v` is the id of a record.
abbrev listed : UserId → List UserRecord → Bool
listed v records = any (λ (r : UserRecord). bytes_eq r.uuid v) records

All-map :
    (records : List UserRecord)
    → All IsRecord records
    → All IsUserId (map (λ (r : UserRecord). r.uuid) records)
All-map [] h = tt
All-map (r ∷ records) (p, h) = (p, All-map records h)

any-map :
    (v : UserId) (records : List UserRecord)
    → any (λ u. bytes_eq u v) (map (λ (r : UserRecord). r.uuid) records) ≡ listed v records
unfolding any
any-map v [] = refl
any-map v (r ∷ records) = ap (λ b. bytes_eq r.uuid v || b) (any-map v records)

is_authorized-listed :
    (v : UserId) (records : List UserRecord)
    → All IsRecord records
    → IsUserId v
    → is_authorized (auth_of records) v ≡ listed v records
unfolding auth_of
is_authorized-listed v records h hv =
    is_authorized-any (map (λ (r : UserRecord). r.uuid) records) v (All-map records h) hv
    ∙ any-map v records

listed-append :
    (v : UserId) (records : List UserRecord) (new : UserRecord)
    → listed v (records ++ (new ∷ [])) ≡ (bytes_eq new.uuid v || listed v records)
unfolding any
listed-append v [] new = refl
listed-append v (r ∷ records) new =
    ap (λ b. bytes_eq r.uuid v || b) (listed-append v records new)
    ∙ swap (bytes_eq r.uuid v) (bytes_eq new.uuid v) (listed v records)
  where
    swap : (a b c : Bool) → (a || (b || c)) ≡ (b || (a || c))
    swap a b c = ground arith

drop_front : (q l : Bool) → (not q && l) ≡ (not q && (q || l))
drop_front true l = refl
drop_front false l = refl

keep_front : (p q l : Bool) → (p ≡ true → q ≡ false) → (p || (not q && l)) ≡ (not q && (p || l))
keep_front true q l h = rw (h refl) refl
keep_front false q l h = refl

apart : (a b v : List ℕ) → bytes_eq a b ≡ false → bytes_eq a v ≡ true → bytes_eq b v ≡ false
apart a b v h e = elim (Bool-cases (bytes_eq b v)) [
  | inr k ↦ k
  | inl k ↦
      let same : a ≡ b = bytes_eq→eq a v e ∙ sym (bytes_eq→eq b v k) in
      cc (sym (bytes_eq_refl b) ∙ ap (λ t. bytes_eq t b) (sym same) ∙ h)
]

listed-retain :
    (v uuid : UserId) (records : List UserRecord)
    → listed v (retain uuid records) ≡ (not (bytes_eq uuid v) && listed v records)
unfolding any retain
listed-retain v uuid [] = ground arith
listed-retain v uuid (r ∷ records) = elim (Bool-cases (bytes_eq r.uuid uuid)) [
  | inl e ↦
      let same : bytes_eq r.uuid v ≡ bytes_eq uuid v =
        ap (λ t. bytes_eq t v) (bytes_eq→eq r.uuid uuid e) in
      rw (e, same) (listed-retain v uuid records ∙ drop_front (bytes_eq uuid v) (listed v records))
  | inr e ↦ rw e (
      ap (λ b. bytes_eq r.uuid v || b) (listed-retain v uuid records)
      ∙ keep_front (bytes_eq r.uuid v) (bytes_eq uuid v) (listed v records) (apart r.uuid uuid v e))
]

length-retain :
    (uuid : UserId) (records : List UserRecord) → length (retain uuid records) ≤ length records
unfolding retain
length-retain uuid [] = omega arith
length-retain uuid (r ∷ records) = elim (Bool-cases (bytes_eq r.uuid uuid)) [
  | inl e ↦ rw e (omega (arith, length-retain uuid records))
  | inr e ↦ rw e (omega (arith, length-retain uuid records))
]

-- Nothing was removed: the id was not there.
retain-none :
    (uuid : UserId) (records : List UserRecord)
    → length (retain uuid records) ≡ length records
    → listed uuid records ≡ false
unfolding retain any
retain-none uuid [] h = refl
retain-none uuid (r ∷ records) h = elim (Bool-cases (bytes_eq r.uuid uuid)) [
  | inl e ↦ absurd (omega (arith, length-retain uuid records, rw e at h))
  | inr e ↦ rw e (retain-none uuid records (omega (arith, rw e at h)))
]

All-retain :
    (uuid : UserId) (records : List UserRecord)
    → All IsRecord records
    → All IsRecord (retain uuid records)
unfolding retain
All-retain uuid [] h = tt
All-retain uuid (r ∷ records) (p, h) = elim (Bool-cases (bytes_eq r.uuid uuid)) [
  | inl e ↦ rw e (All-retain uuid records h)
  | inr e ↦ rw e (p, All-retain uuid records h)
]

commit-users :
    {A : Type 0} (json : Json) (fails : Bool) (candidate : List UserRecord) (result x : A)
    (disk : Disk) (s : UserStore) (v : UserId)
    → (commit json fails candidate result (disk, s)).1 ≡ ok x
    → handle_is_authorized (commit json fails candidate result (disk, s)).0.1.handle v
      ≡ is_authorized (auth_of candidate) v
unfolding commit persist store handle_is_authorized
commit-users json true candidate result x disk s v e = cc
commit-users json false candidate result x disk s v e = refl

in_force :
    (json : Json) (disk : Disk) (s : UserStore) (v : UserId)
    → IsLive json (disk, s)
    → All IsRecord s.records
    → IsUserId v
    → handle_is_authorized s.handle v ≡ listed v s.records
unfolding handle_is_authorized
in_force json disk s v live h hv =
    ap (λ (a : UserAuth). is_authorized a v) live.in_force ∙ is_authorized-listed v s.records h hv

unchanged : (q b : Bool) → (q ≡ true → b ≡ false) → b ≡ (not q && b)
unchanged true b h = h refl
unchanged false b h = refl

-- After an addition that succeeds, exactly the users that were let in before and the new one are, for ids
-- of 16 bytes and a store whose handle and file agree.
handle_is_authorized-add :
    (json : Json) (fails : Bool) (now : ℕ) (minted : UserId) (name : List ℕ) (given : Option UserId)
    (disk : Disk) (s : UserStore) (r : UserRecord) (v : UserId)
    → IsLive json (disk, s)
    → All IsRecord s.records
    → IsUserId (chosen given minted)
    → IsUserId v
    → (add json fails now minted name given (disk, s)).1 ≡ ok r
    → handle_is_authorized (add json fails now minted name given (disk, s)).0.1.handle v
      ≡ (bytes_eq (chosen given minted) v || handle_is_authorized s.handle v)
handle_is_authorized-add json fails now minted name given disk s r v live h hn hv done =
    elim (Bool-cases (listed (chosen given minted) s.records)) [
      | inl e ↦ cc (rw (add-duplicate json fails disk s now minted name given e) at done)
      | inr e ↦
          let new = added json fails disk s now minted name given in
          let all = All-append IsRecord s.records (new ∷ []) h (hn, tt) in
          rw (add-fresh json fails disk s now minted name given e) (
            commit-users json fails (s.records ++ (new ∷ [])) new r disk s v
              (rw (add-fresh json fails disk s now minted name given e) at done)
            ∙ is_authorized-listed v (s.records ++ (new ∷ [])) all hv
            ∙ listed-append v s.records new
            ∙ ap (λ b. bytes_eq (chosen given minted) v || b)
                (sym (in_force json disk s v live h hv)))
    ]

-- After a removal that succeeds, whether or not there was something to remove, exactly the users that were
-- let in before are, less the one that was named, for ids of 16 bytes and a store whose handle and file
-- agree.
pub handle_is_authorized-remove_user :
    (json : Json) (fails : Bool) (uuid : UserId) (disk : Disk) (s : UserStore) (was_there : Bool)
    (v : UserId)
    → IsLive json (disk, s)
    → All IsRecord s.records
    → IsUserId v
    → (remove_user json fails uuid (disk, s)).1 ≡ ok was_there
    → handle_is_authorized (remove_user json fails uuid (disk, s)).0.1.handle v
      ≡ (not (bytes_eq uuid v) && handle_is_authorized s.handle v)
handle_is_authorized-remove_user json fails uuid disk s was_there v live h hv done =
    elim (Bool-cases (length (retain uuid s.records) == length s.records)) [
      | inl e ↦ rw (remove-none json fails disk s uuid e) (
          unchanged (bytes_eq uuid v) (handle_is_authorized s.handle v) λ same.
            in_force json disk s v live h hv
            ∙ ap (λ t. listed t s.records) (sym (bytes_eq→eq uuid v same))
            ∙ retain-none uuid s.records ((==_iff _ _).0 e))
      | inr e ↦ rw (remove-some json fails disk s uuid e) (
          commit-users json fails (retain uuid s.records) true was_there disk s v
            (rw (remove-some json fails disk s uuid e) at done)
          ∙ is_authorized-listed v (retain uuid s.records) (All-retain uuid s.records h) hv
          ∙ listed-retain v uuid s.records
          ∙ ap (λ b. not (bytes_eq uuid v) && b) (sym (in_force json disk s v live h hv)))
    ]
