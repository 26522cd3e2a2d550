-- ===== src/Examples/Store.antt =====
-- A format for the user store's file, and concrete runs of the store.
use hold_the_donut.Prelude.{
  ℕ, zero, suc, ◌<◌, ◌≡◌, refl, ap, ◌∙◌, arith, true, false, not, ◌&&◌, List, [], ◌∷◌, length,
  Option, none, some, codes, bytes_eq, any, ok,
}
use hold_the_donut.Core.Auth.{handle_is_authorized}
use hold_the_donut.Server.Users.{
  UserRecord, Json, ReadsBack, UserStore, auth_of, load_or_seed, persist, chosen, add, commit,
  retain, remove_user, Op, add_op, remove_op, apply_all,
}
use hold_the_donut.Server.Users.Durable.{IsLive, load-IsLive, load_or_seed-apply_all}
use hold_the_donut.Server.Users.Access.{handle_is_authorized-remove_user}
use hold_the_donut.Examples.Data.{alice, bob, IsUserId-alice}

-- For each record a mark, the time, and the name and the id with a mark before each byte.
marked : List ℕ → List ℕ → List ℕ
marked [] rest = zero ∷ rest
marked (b ∷ bs) rest = 1 ∷ b ∷ marked bs rest

write : List UserRecord → List ℕ
unfolding marked
write [] = zero ∷ []
write (r ∷ rs) = 1 ∷ r.added ∷ marked r.name (marked r.uuid (write rs))

cons_to : ℕ → Option (List ℕ × List ℕ) → Option (List ℕ × List ℕ)
cons_to b none = none
cons_to b (some (bs, rest)) = some (b ∷ bs, rest)

unmark : List ℕ → Option (List ℕ × List ℕ)
unfolding cons_to
unmark [] = none
unmark (zero ∷ rest) = some ([], rest)
unmark (suc n ∷ []) = none
unmark (suc n ∷ b ∷ s) = cons_to b (unmark s)

record_to : ℕ → List ℕ → List ℕ → Option (List UserRecord) → Option (List UserRecord)
record_to added name uuid none = none
record_to added name uuid (some rs) = some (record { uuid = uuid; name = name; added = added } ∷ rs)

-- The id behind a name.
then_uuid :
    (List ℕ → Option (List UserRecord)) → ℕ → Option (List ℕ × List ℕ) → Option (List UserRecord)
unfolding unmark record_to
then_uuid read added none = none
then_uuid read added (some (name, s)) = elim (unmark s) [
  | none ↦ none
  | some (uuid, rest) ↦ record_to added name uuid (read rest)
]

read : ℕ → List ℕ → Option (List UserRecord)
unfolding then_uuid
read zero s = none
read (suc n) [] = none
read (suc n) (zero ∷ s) = some []
read (suc n) (suc m ∷ []) = none
read (suc n) (suc m ∷ added ∷ s) = let again = read n in then_uuid again added (unmark s)

unmark-marked : (bs rest : List ℕ) → unmark (marked bs rest) ≡ some (bs, rest)
unfolding unmark marked cons_to
unmark-marked [] rest = refl
unmark-marked (b ∷ bs) rest = rw (unmark-marked bs rest) refl

then_uuid-marked :
    (f : List ℕ → Option (List UserRecord)) (added : ℕ) (name uuid rest : List ℕ)
    → then_uuid f added (some (name, marked uuid rest)) ≡ record_to added name uuid (f rest)
unfolding then_uuid
then_uuid-marked f added name uuid rest = rw (then_uuid, unmark-marked uuid rest) refl

read-write : (n : ℕ) (rs : List UserRecord) → length rs < n → read n (write rs) ≡ some rs
unfolding read write record_to
read-write zero rs h = absurd (omega arith)
read-write (suc n) [] h = refl
read-write (suc n) (r ∷ rs) h =
    ap (then_uuid (read n) r.added) (unmark-marked r.name (marked r.uuid (write rs)))
    ∙ then_uuid-marked (read n) r.added r.name r.uuid (write rs)
    ∙ ap (record_to r.added r.name r.uuid) (read-write n rs (omega arith))

length-marked : (bs rest : List ℕ) → length rest < length (marked bs rest)
unfolding marked
length-marked [] rest = omega arith
length-marked (b ∷ bs) rest = omega (arith, length-marked bs rest)

length-write : (rs : List UserRecord) → length rs < length (write rs)
unfolding write
length-write [] = omega arith
length-write (r ∷ rs) = omega (
  arith,
  length-write rs,
  length-marked r.uuid (write rs),
  length-marked r.name (marked r.uuid (write rs)),
)

abbrev json : Json
json = record { to_vec = write; from_slice = λ s. read (length s) s }

ReadsBack-json : ReadsBack json
ReadsBack-json rs = read-write (length (write rs)) rs (length-write rs)

-- Alice alone, as the first start seeds it.
abbrev seeded : List UserRecord
seeded = record { uuid = alice; name = codes "seed"; added = 7 } ∷ []

abbrev first : UserStore
first = record { handle = record { snapshot = auth_of seeded }; records = seeded }

first_start : load_or_seed json false 7 (alice ∷ []) none ≡ (some (write seeded), ok first)
unfolding load_or_seed persist
first_start = refl

live : IsLive json (some (write seeded), first)
live =
    load-IsLive json 7 (alice ∷ []) false none (some (write seeded)) first ReadsBack-json
      first_start

-- An addition, a failing removal, and one that succeeds.
abbrev ops : List Op
ops =
    add_op false 8 alice (codes "pixel") (some bob)
    ∷ remove_op true alice
    ∷ remove_op false alice
    ∷ []

load_or_seed-apply_all_example :
    load_or_seed json false 9 [] (apply_all json ops (some (write seeded), first)).0 ≡ (
      (apply_all json ops (some (write seeded), first)).0,
      ok (apply_all json ops (some (write seeded), first)).1,
    )
load_or_seed-apply_all_example =
    load_or_seed-apply_all json false 7 9 (alice ∷ []) [] none (some (write seeded)) first ops
      ReadsBack-json first_start

add_works :
    (add json false 8 alice (codes "pixel") (some bob) (some (write seeded), first)).1
    ≡ ok (record { uuid = bob; name = codes "pixel"; added = 8 })
unfolding add commit persist chosen any bytes_eq
add_works = refl

remove_works : (remove_user json false alice (some (write seeded), first)).1 ≡ ok true
unfolding remove_user retain commit persist bytes_eq
remove_works = refl

handle_is_authorized-remove_user_example :
    handle_is_authorized
      (remove_user json false alice (some (write seeded), first)).0.1.handle
      alice
    ≡ (not (bytes_eq alice alice) && handle_is_authorized first.handle alice)
handle_is_authorized-remove_user_example =
    handle_is_authorized-remove_user json false alice (some (write seeded)) first true alice live
      (IsUserId-alice, tt) IsUserId-alice remove_works
