-- ===== src/Server/Users/Durable.antt =====
-- The user store: what is on disk is what is in force, and what the operations do to who is let in.
use mathlib.Core.Path.{subst, ap₂}
use hold_the_donut.Prelude.{
  ok-injective, ℕ, ◌≡◌, inl, inr, refl, sym, ap, ◌∙◌, Bool, true, false, Option, none, some,
  Option-cases, List, [], ◌∷◌, ◌++◌, length, ◌==◌, any, bytes_eq, Bool-cases, Outcome, ok, err,
}
use hold_the_donut.Core.Id.{UserId}
use hold_the_donut.Core.Auth.{UserAuth, store}
use hold_the_donut.Server.Users.{
  UserRecord, Json, ReadsBack, UserStoreError, parse, duplicate, Disk, UserStore, auth_of, chosen,
  persist, load_or_seed, commit, add, retain, remove_user, Op, add_op, remove_op, apply, apply_all,
}

-- The file reads as the records in memory, and the handle lets in exactly their users.
pub record IsLive (json : Json) (st : Disk × UserStore) : Type 0 where
  pub bytes : List ℕ
  on_disk : st.0 ≡ some bytes
  pub reads : json.from_slice bytes ≡ some st.1.records
  pub in_force : st.1.handle.snapshot ≡ auth_of st.1.records

commit-IsLive :
    {A : Type 0} (json : Json) (fails : Bool) (candidate : List UserRecord) (result : A)
    (st : Disk × UserStore)
    → ReadsBack json
    → IsLive json st
    → IsLive json (commit json fails candidate result st).0
unfolding commit persist store
commit-IsLive json true candidate result (disk, s) back h = h
commit-IsLive json false candidate result (disk, s) back h = record {
  bytes = json.to_vec candidate;
  on_disk = refl;
  reads = back candidate;
  in_force = refl;
}

-- The branches of `add` and `remove`.
module _ (json : Json) (fails : Bool) (disk : Disk) (s : UserStore) where
  module _ (now : ℕ) (minted : UserId) (name : List ℕ) (given : Option UserId) where
    abbrev pub added : UserRecord
    added = record { uuid = chosen given minted; name = name; added = now }

    pub add-duplicate :
        any (λ (r : UserRecord). bytes_eq r.uuid (chosen given minted)) s.records ≡ true
        → add json fails now minted name given (disk, s)
          ≡ ((disk, s), err (duplicate (chosen given minted)))
    unfolding add
    add-duplicate e = rw (add, e) refl

    pub add-fresh :
        any (λ (r : UserRecord). bytes_eq r.uuid (chosen given minted)) s.records ≡ false
        → add json fails now minted name given (disk, s)
          ≡ commit json fails (s.records ++ (added ∷ [])) added (disk, s)
    unfolding add
    add-fresh e = rw (add, e) refl

  pub remove-none :
      (uuid : UserId)
      → (length (retain uuid s.records) == length s.records) ≡ true
      → remove_user json fails uuid (disk, s) ≡ ((disk, s), ok false)
  unfolding remove_user
  remove-none uuid e = rw (remove_user, e) refl

  pub remove-some :
      (uuid : UserId)
      → (length (retain uuid s.records) == length s.records) ≡ false
      → remove_user json fails uuid (disk, s)
        ≡ commit json fails (retain uuid s.records) true (disk, s)
  unfolding remove_user
  remove-some uuid e = rw (remove_user, e) refl

apply-IsLive :
    (json : Json) (op : Op) (st : Disk × UserStore)
    → ReadsBack json
    → IsLive json st
    → IsLive json (apply json op st)
unfolding apply
apply-IsLive json (add_op fails now minted name given) (disk, s) back h =
    elim (Bool-cases (any (λ (r : UserRecord). bytes_eq r.uuid (chosen given minted)) s.records)) [
      | inl e ↦ rw (apply, add-duplicate json fails disk s now minted name given e) h
      | inr e ↦
          rw (apply, add-fresh json fails disk s now minted name given e)
            (commit-IsLive json fails
              (s.records ++ (added json fails disk s now minted name given ∷ []))
              (added json fails disk s now minted name given) (disk, s) back h)
    ]
apply-IsLive json (remove_op fails uuid) (disk, s) back h =
    elim (Bool-cases (length (retain uuid s.records) == length s.records)) [
      | inl e ↦ rw (apply, remove-none json fails disk s uuid e) h
      | inr e ↦
          rw (apply, remove-some json fails disk s uuid e)
            (commit-IsLive json fails (retain uuid s.records) true (disk, s) back h)
    ]

apply_all-IsLive :
    (json : Json) (ops : List Op) (st : Disk × UserStore)
    → ReadsBack json
    → IsLive json st
    → IsLive json (apply_all json ops st)
unfolding apply_all
apply_all-IsLive json [] st back h = h
apply_all-IsLive json (op ∷ ops) st back h =
    apply_all-IsLive json ops (apply json op st) back (apply-IsLive json op st back h)

same_pair :
    (json : Json) (d d' : Disk) (s s' : UserStore)
    → IsLive json (d, s)
    → ◌≡◌ {A = Disk × Outcome UserStoreError UserStore} (d, ok s) (d', ok s')
    → IsLive json (d', s')
same_pair json d d' s s' h e =
    subst (IsLive json) (ap₂ (λ a b. (a, b)) (ap (λ r. r.0) e) (ok-injective (ap (λ r. r.1) e))) h

module _ (json : Json) (now : ℕ) (seed : List UserId) where
  load_fails :
      (before disk : Disk) (s : UserStore)
      → load_or_seed json true now seed before ≡ (disk, ok s)
      → ⊥
  unfolding load_or_seed persist
  load_fails none disk s e = cc (ap (λ (r : Disk × Outcome UserStoreError UserStore). r.1) e)
  load_fails (some bytes) disk s e =
      cc (ap (λ (r : Disk × Outcome UserStoreError UserStore). r.1) e)

  load_file :
      (bytes : List ℕ) (records : List UserRecord)
      → json.from_slice bytes ≡ some records
      → load_or_seed json false now seed (some bytes) ≡ (
        some bytes,
        ok (record { handle = record { snapshot = auth_of records }; records = records }),
      )
  unfolding load_or_seed
  load_file bytes records r = rw (load_or_seed, r) refl

  load_malformed :
      (bytes : List ℕ)
      → json.from_slice bytes ≡ none
      → load_or_seed json false now seed (some bytes) ≡ (some bytes, err parse)
  unfolding load_or_seed
  load_malformed bytes r = rw (load_or_seed, r) refl

  pub load-IsLive :
      (fails : Bool) (before disk : Disk) (s : UserStore)
      → ReadsBack json
      → load_or_seed json fails now seed before ≡ (disk, ok s)
      → IsLive json (disk, s)
  unfolding load_or_seed persist
  load-IsLive true before disk s back e = absurd (load_fails before disk s e)
  load-IsLive false none disk s back e =
      same_pair json _ disk _ s
        (record { bytes = _; on_disk = refl; reads = back _; in_force = refl }) e
  load-IsLive false (some bytes) disk s back e = elim (Option-cases (json.from_slice bytes)) [
    | inl n ↦ cc (
        ap (λ (r : Disk × Outcome UserStoreError UserStore). r.1)
          (sym (load_malformed bytes n) ∙ e))
    | inr (records, r) ↦
        same_pair json _ disk _ s
          (record { bytes = bytes; on_disk = refl; reads = r; in_force = refl })
          (sym (load_file bytes records r) ∙ e)
  ]

-- If what is written can be read back, then after any successful start and any sequence of additions and
-- removals, each with its own failing or succeeding write, a restart from the file, with any seed, gives
-- exactly the store that was in force: the same records and the same users let in.
pub load_or_seed-apply_all :
    (json : Json) (fails : Bool) (now now' : ℕ) (seed seed' : List UserId) (before disk : Disk)
    (s : UserStore) (ops : List Op)
    → ReadsBack json
    → load_or_seed json fails now seed before ≡ (disk, ok s)
    → load_or_seed json false now' seed' (apply_all json ops (disk, s)).0
      ≡ ((apply_all json ops (disk, s)).0, ok (apply_all json ops (disk, s)).1)
load_or_seed-apply_all json fails now now' seed seed' before disk s ops back e =
    let live =
      apply_all-IsLive json ops (disk, s) back
        (load-IsLive json now seed fails before disk s back e) in
    let st = apply_all json ops (disk, s) in
    let there : load_or_seed json false now' seed' (some live.bytes) ≡ (some live.bytes, ok st.1) =
      load_file json now' seed' live.bytes st.1.records live.reads
      ∙ ap
          (λ (a : UserAuth). (
            some live.bytes,
            ok (record { handle = record { snapshot = a }; records = st.1.records }),
          ))
          (sym live.in_force) in
    rw live.on_disk there
