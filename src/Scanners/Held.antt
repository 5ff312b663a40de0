-- ===== src/Scanners/Held.antt =====
-- Which scan holds which replica, in any order of checkouts and checkins.
use rotsy.Base.{
  ℕ, zero, suc, ◌+◌, max, ◌≤◌, ◌≡◌, refl, ap, ◌∙◌, inl, inr, true, none, some, List, [], ◌∷◌, ◌++◌,
  ltb, ◌==◌, if◌then◌else◌, length, Bool-cases, arith,
}
use rotsy.Scanners.Replicas.{
  Disk, Pool, Copying, copied, failed, cancelled, Checkout, slot_given, error_raised,
  task_cancelled, upto, slots, replica_stale, checkin_replica, copy_replica, checkout_replica,
}

-- The disk, the free slots, the slots that scans hold, and the number of checkouts that were cancelled
-- while they copied.
pub record Shop : Type 0 where
  pub disk : Disk
  pub free : Pool
  pub held : List ℕ
  pub lost : ℕ

-- The state after a checkout that has ended.
abbrev after_checkout : Shop → Checkout × (Disk × Pool) → Shop
after_checkout shop (slot_given slot, (disk, free)) = record shop {
  disk = disk;
  free = free;
  held = slot ∷ shop.held;
}
after_checkout shop (error_raised, (disk, free)) = record shop { disk = disk; free = free }
after_checkout shop (task_cancelled, (disk, free)) = record shop {
  disk = disk;
  free = free;
  lost = suc shop.lost;
}

-- A checkout, with how its copying ends, as it changes the slots.
unfoldable pub take_slot : Copying → Shop → Shop
take_slot copying shop = elim (checkout_replica copying shop.disk shop.free) [
  | none ↦ shop
  | some after ↦ after_checkout shop after
]

-- The steps of the scans and of what updates the database.
pub data Step : Shop → Shop → Type 0 where
  checkout : (copying : Copying) (shop : Shop) → Step shop (take_slot copying shop)
  checkin :
      (disk : Disk) (free before after : List ℕ) (slot lost : ℕ)
      → Step
          (record { disk = disk; free = free; held = before ++ (slot ∷ after); lost = lost })
          (record {
            disk = disk;
            free = checkin_replica slot free;
            held = before ++ after;
            lost = lost;
          })
  update : (disk : Disk) (shop : Shop) → Step shop (record shop { disk = disk })

pub data Reaches (n : ℕ) : Shop → Type 0 where
  start : (disk : Disk) → Reaches n (record { disk = disk; free = slots n; held = []; lost = 0 })
  next : {a b : Shop} → Reaches n a → Step a b → Reaches n b

abbrev pub times : ℕ → List ℕ → ℕ
times k [] = 0
times k (x ∷ xs) = (if x == k then 1 else 0) + times k xs

pub times-append : (k : ℕ) (xs ys : List ℕ) → times k (xs ++ ys) ≡ times k xs + times k ys
times-append k [] ys = omega arith
times-append k (x ∷ xs) ys = omega (arith, times-append k xs ys)

length-append : (xs ys : List ℕ) → length (xs ++ ys) ≡ length xs + length ys
length-append [] ys = omega arith
length-append (x ∷ xs) ys = omega (arith, length-append xs ys)

times-upto : (k from n : ℕ) → times k (upto from n) ≤ 1
times-upto k from zero = omega arith
times-upto k from (suc n) = ground (arith, times-upto k (suc from) n, before k (suc from) n)
  where
    before : (k from n : ℕ) → ltb k from ≡ true → times k (upto from n) ≡ 0
    before k from zero h = refl
    before k from (suc n) h = ground (arith, before k (suc from) n, h)

length-upto : (from n : ℕ) → length (upto from n) ≡ n
length-upto from zero = refl
length-upto from (suc n) = ap suc (length-upto (suc from) n)

-- How often a slot is free or held, and how many are free, held or lost.
abbrev stock : ℕ → Shop → ℕ
stock k shop = times k shop.free + times k shop.held

abbrev stock_size : Shop → ℕ
stock_size shop = length shop.held + length shop.free + shop.lost

-- A checkout moves a slot, or none, or loses it.
abbrev Keeps : ℕ → Shop → Shop → Type 0
Keeps k after before = (stock k after ≤ stock k before) × (stock_size after ≡ stock_size before)

after_checkout-Keeps :
    (k slot : ℕ) (copying : Copying) (disk : Disk) (free : Pool) (held : List ℕ) (lost : ℕ)
    → Keeps k
        (after_checkout
          (record { disk = disk; free = slot ∷ free; held = held; lost = lost })
          (copy_replica copying slot disk free))
        (record { disk = disk; free = slot ∷ free; held = held; lost = lost })
after_checkout-Keeps k slot copied disk free held lost = (omega arith, omega arith)
after_checkout-Keeps k slot (failed files) disk free held lost =
    (omega (arith, times-append k free (slot ∷ [])), omega (arith, length-append free (slot ∷ [])))
after_checkout-Keeps k slot (cancelled files) disk free held lost = (omega arith, omega arith)

take_slot-Keeps :
    (k : ℕ) (copying : Copying) (disk : Disk) (free : Pool) (held : List ℕ) (lost : ℕ)
    → Keeps k
        (take_slot copying (record { disk = disk; free = free; held = held; lost = lost }))
        (record { disk = disk; free = free; held = held; lost = lost })
unfolding take_slot checkout_replica
take_slot-Keeps k copying disk [] held lost = (omega arith, refl)
take_slot-Keeps k copying disk (slot ∷ free) held lost =
    elim (Bool-cases (replica_stale slot disk)) [
      | inr e ↦ rw (e, take_slot, checkout_replica) (omega arith, omega arith)
      | inl e ↦
          rw (e, take_slot, checkout_replica)
            (after_checkout-Keeps k slot copying disk free held lost)
    ]

step-Keeps : (k : ℕ) {a b : Shop} → Step a b → Keeps k b a
step-Keeps k (checkout copying shop) =
    take_slot-Keeps k copying shop.disk shop.free shop.held shop.lost
step-Keeps k (checkin disk free before after slot lost) = (
  omega (
    arith,
    times-append k free (slot ∷ []),
    times-append k before (slot ∷ after),
    times-append k before after,
  ),
  omega (
    arith,
    length-append free (slot ∷ []),
    length-append before (slot ∷ after),
    length-append before after,
  ),
)
step-Keeps k (update disk shop) = (omega arith, refl)

Reaches-Keeps :
    (n k : ℕ) (shop : Shop)
    → Reaches n shop
    → (stock k shop ≤ times k (slots n)) × (stock_size shop ≡ max 1 n)
unfolding slots
Reaches-Keeps n k shop (start disk) = (omega arith, omega (arith, length-upto 0 (max 1 n)))
Reaches-Keeps n k shop (next {a = a} r step) =
    let (p, q) = Reaches-Keeps n k a r in
    let (x, y) = step-Keeps k step in (omega (arith, p, x), y ∙ q)

-- However checkouts, failed and cancelled copies, checkins and updates of the database follow on each
-- other, no replica is held by two scans or held and free at once, and the replicas that are held, that
-- are free, and one for each checkout that was cancelled while it copied are the set number.
pub Reaches-once :
    (n k : ℕ) (shop : Shop)
    → Reaches n shop
    → (times k shop.held + times k shop.free ≤ 1)
      × (length shop.held + length shop.free + shop.lost ≡ max 1 n)
unfolding slots
Reaches-once n k shop r =
    let (p, q) = Reaches-Keeps n k shop r in (omega (arith, p, times-upto k 0 (max 1 n)), q)
