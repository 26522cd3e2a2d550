-- ===== src/Server/Users.antt =====
-- crates/donut-server/src/users.rs: the durable user store. The file holds the bytes of the JSON form; the
-- mutex makes the operations a sequence.
pub mod Durable
pub mod Access
use hold_the_donut.Prelude.{
  ℕ, ◌≡◌, Bool, true, false, not, Option, none, some, List, [], ◌∷◌, ◌++◌, map, length, ◌==◌,
  if◌then◌else◌, any, bytes_eq, codes, Outcome, ok, err, panic,
}
use hold_the_donut.Core.Id.{UserId}
use hold_the_donut.Core.Auth.{UserAuth, AuthHandle, store}

pub record UserRecord : Type 0 where
  pub uuid : UserId
  pub name : List ℕ
  pub added : ℕ

-- serde_json, on lists of records.
pub record Json : Type 0 where
  pub to_vec : List UserRecord → List ℕ
  pub from_slice : List ℕ → Option (List UserRecord)

-- What is written can be read.
abbrev pub ReadsBack : Json → Type 0
ReadsBack json = (records : List UserRecord) → json.from_slice (json.to_vec records) ≡ some records

pub data UserStoreError : Type 0 where
  io : UserStoreError
  parse : UserStoreError
  duplicate : UserId → UserStoreError

-- The file at the store's path, and the store in memory.
abbrev pub Disk : Type 0
Disk = Option (List ℕ)

pub record UserStore : Type 0 where
  pub handle : AuthHandle
  pub records : List UserRecord

-- `auth_of`
unfoldable pub auth_of : List UserRecord → UserAuth
auth_of records = record { users = map (λ (r : UserRecord). r.uuid) records }

-- `persist`: a sibling file is written and synced, then renamed over the target. Any of these can fail,
-- and then the target is as before; after the rename nothing is reported.
unfoldable pub persist : Json → Bool → Disk → List UserRecord → Disk × Outcome UserStoreError Unit
persist json fails disk records =
    if fails then (disk, err io) else (some (json.to_vec records), ok tt)

abbrev seed_name : List ℕ
seed_name = codes "seed"

-- `UserStore::load_or_seed`
unfoldable pub load_or_seed :
    Json → Bool → ℕ → List UserId → Disk → Disk × Outcome UserStoreError UserStore
unfolding persist auth_of
load_or_seed json fails now seed (some bytes) =
    if fails then (some bytes, err io) else elim (json.from_slice bytes) [
      | none ↦ (some bytes, err parse)
      | some records ↦ (
        some bytes,
        ok (record { handle = record { snapshot = auth_of records }; records = records }),
      )
    ]
load_or_seed json fails now seed none =
    let seeded = map (λ (u : UserId). record { uuid = u; name = seed_name; added = now }) seed in
    let r = persist json fails none seeded in
    elim r.1 [
      | ok u ↦
          (r.0, ok (record { handle = record { snapshot = auth_of seeded }; records = seeded }))
      | err e ↦ (r.0, err e)
      | panic ↦ (r.0, panic)
    ]

-- The end of `add` and `remove`: the candidate is persisted, and only then the memory is set.
unfoldable pub commit :
    {A : Type 0}
    → Json
    → Bool
    → List UserRecord
    → A
    → Disk × UserStore
    → (Disk × UserStore) × Outcome UserStoreError A
unfolding persist auth_of store
commit json fails candidate result (disk, s) =
    let r = persist json fails disk candidate in
    elim r.1 [
      | ok u ↦ (
        (r.0, record { handle = store s.handle (auth_of candidate); records = candidate }),
        ok result,
      )
      | err e ↦ ((r.0, s), err e)
      | panic ↦ ((r.0, s), panic)
    ]

-- `uuid.unwrap_or_else(UserId::new_v4)`
unfoldable pub chosen : Option UserId → UserId → UserId
chosen none minted = minted
chosen (some uuid) minted = uuid

-- `UserStore::add`; `minted` is the fresh id for a caller that gives none.
unfoldable pub add :
    Json
    → Bool
    → ℕ
    → UserId
    → List ℕ
    → Option UserId
    → Disk × UserStore
    → (Disk × UserStore) × Outcome UserStoreError UserRecord
unfolding commit chosen
add json fails now minted name given (disk, s) =
    let uuid = chosen given minted in
    let new : UserRecord = record { uuid = uuid; name = name; added = now } in
    if any (λ (r : UserRecord). bytes_eq r.uuid uuid) s.records
    then ((disk, s), err (duplicate uuid))
    else commit json fails (s.records ++ (new ∷ [])) new (disk, s)

-- `candidate.retain(|r| &r.uuid != uuid)`
unfoldable pub retain : UserId → List UserRecord → List UserRecord
retain uuid [] = []
retain uuid (r ∷ records) =
    let rest = retain uuid records in if bytes_eq r.uuid uuid then rest else r ∷ rest

-- `UserStore::remove`
unfoldable pub remove_user :
    Json → Bool → UserId → Disk × UserStore → (Disk × UserStore) × Outcome UserStoreError Bool
unfolding commit retain
remove_user json fails uuid (disk, s) =
    let candidate = retain uuid s.records in
    if length candidate == length s.records
    then ((disk, s), ok false)
    else commit json fails candidate true (disk, s)

-- A request of the admin interface, with what the clock, the id generator and the disk do.
pub data Op : Type 0 where
  add_op : Bool → ℕ → UserId → List ℕ → Option UserId → Op
  remove_op : Bool → UserId → Op

unfoldable pub apply : Json → Op → Disk × UserStore → Disk × UserStore
apply json (add_op fails now minted name given) st = (add json fails now minted name given st).0
apply json (remove_op fails uuid) st = (remove_user json fails uuid st).0

unfoldable pub apply_all : Json → List Op → Disk × UserStore → Disk × UserStore
unfolding apply
apply_all json [] st = st
apply_all json (op ∷ ops) st = apply_all json ops (apply json op st)
