-- ===== src/Smart/Report/Order.antt =====
-- The report does not depend on the order in which the probes finish.
use zdash.Prelude.{
  ℕ, zero, suc, ◌<◌, ◌≤◌, ◌≡◌, refl, ap, sym, ◌∙◌, Bool, true, false, ◌||◌, ◌&&◌, ltb, inl, inr,
  List, [], ◌∷◌, none, some, Bytes, map, length, ◌==◌, if◌then◌else◌, arith, Option-cases,
}
use zdash.Smart.{SmartDetails}
use zdash.Smart.Report.{
  SmartScanDevice, SmartDeviceReport, Fetched, no_report, report_of, set, get_elem?, blanks, finish,
  finish_all, probe_all, in_scan_order,
}

module _ {ℓ} {A : Type ℓ} where
  length-set : (xs : List A) (i : ℕ) (v : A) → length (set xs i v) ≡ length xs
  length-set [] i v = refl
  length-set (x ∷ xs) zero v = refl
  length-set (x ∷ xs) (suc i) v = ap suc (length-set xs i v)

  get_elem?-set :
      (xs : List A) (i j : ℕ) (v : A)
      → i < length xs
      → get_elem? (set xs i v) j ≡ (if i == j then some v else get_elem? xs j)
  get_elem?-set [] i j v h = elim h [ ]
  get_elem?-set (x ∷ xs) zero zero v h = refl
  get_elem?-set (x ∷ xs) zero (suc j) v h = ground arith
  get_elem?-set (x ∷ xs) (suc i) zero v h = ground arith
  get_elem?-set (x ∷ xs) (suc i) (suc j) v h = ground (arith, get_elem?-set xs i j v)

  get_elem?-lt : (xs : List A) (i : ℕ) {a : A} → get_elem? xs i ≡ some a → i < length xs
  get_elem?-lt [] i h = absurd (cc)
  get_elem?-lt (x ∷ xs) zero h = omega arith
  get_elem?-lt (x ∷ xs) (suc i) h = omega (arith, get_elem?-lt xs i h)

  get_elem?-none : (xs : List A) (i : ℕ) → get_elem? xs i ≡ none → length xs ≤ i
  get_elem?-none [] i h = omega arith
  get_elem?-none (x ∷ xs) zero h = absurd (cc)
  get_elem?-none (x ∷ xs) (suc i) h = omega (arith, get_elem?-none xs i h)

  get_elem?-beyond : (xs : List A) (i : ℕ) → length xs ≤ i → get_elem? xs i ≡ none
  get_elem?-beyond [] i h = refl
  get_elem?-beyond (x ∷ xs) zero h = absurd (omega arith)
  get_elem?-beyond (x ∷ xs) (suc i) h = get_elem?-beyond xs i (omega arith)

  list_ext :
      (xs ys : List A)
      → length xs ≡ length ys
      → ((i : ℕ) → i < length xs → get_elem? xs i ≡ get_elem? ys i)
      → xs ≡ ys
  list_ext [] [] n h = refl
  list_ext [] (y ∷ ys) n h = absurd (omega arith)
  list_ext (x ∷ xs) [] n h = absurd (omega arith)
  list_ext (x ∷ xs) (y ∷ ys) n h =
      cc (h 0 (omega arith), list_ext xs ys (omega arith) (λ i lt. h (suc i) (omega arith)))

-- This goroutine is among those that finish.
abbrev pub finishes : ℕ → List ℕ → Bool
finishes j [] = false
finishes j (i ∷ order) = i == j || finishes j order

module _ (probe : Bytes → Fetched SmartDetails) (devices : List SmartScanDevice) where
  get_elem?-in_scan_order :
      (ds : List SmartScanDevice) (i : ℕ) {dev : SmartScanDevice}
      → get_elem? ds i ≡ some dev
      → get_elem? (in_scan_order probe ds) i ≡ some (report_of dev (probe dev.name))
  get_elem?-in_scan_order [] i h = absurd (cc)
  get_elem?-in_scan_order (d ∷ ds) zero h = ground arith
  get_elem?-in_scan_order (d ∷ ds) (suc i) h = get_elem?-in_scan_order ds i h

  length-finish :
      (i : ℕ) (slots : List SmartDeviceReport)
      → length (finish probe devices i slots) ≡ length slots
  unfolding finish
  length-finish i slots = elim (Option-cases (get_elem? devices i)) [
    | inl e ↦ rw (e, finish) refl
    | inr (dev, e) ↦ rw (e, finish) (length-set slots i _)
  ]

  finish-slot :
      (i j : ℕ) (slots : List SmartDeviceReport)
      → length slots ≡ length devices
      → get_elem? (finish probe devices i slots) j ≡ (
          if i == j && ltb i (length devices)
          then get_elem? (in_scan_order probe devices) j
          else get_elem? slots j)
  unfolding finish
  finish-slot i j slots n = elim (Option-cases (get_elem? devices i)) [
    | inl e ↦ rw (e, finish) (ground (arith, get_elem?-none devices i e))
    | inr (dev, e) ↦
        rw (e, finish)
          (ground (
            arith,
            get_elem?-set slots i j (report_of dev (probe dev.name)),
            get_elem?-lt devices i e,
            get_elem?-in_scan_order devices i e,
          ))
  ]

  length-finish_all :
      (order : List ℕ) (slots : List SmartDeviceReport)
      → length (finish_all probe devices order slots) ≡ length slots
  unfolding finish_all
  length-finish_all [] slots = refl
  length-finish_all (i ∷ order) slots =
      length-finish_all order (finish probe devices i slots) ∙ length-finish i slots

  finish_all-slot :
      (j : ℕ) (order : List ℕ) (slots : List SmartDeviceReport)
      → length slots ≡ length devices
      → j < length devices
      → get_elem? (finish_all probe devices order slots) j ≡ (
          if finishes j order then get_elem? (in_scan_order probe devices) j else get_elem? slots j)
  unfolding finish_all
  finish_all-slot j [] slots n lt = refl
  finish_all-slot j (i ∷ order) slots n lt = ground (
    arith,
    finish-slot i j slots n,
    finish_all-slot j order (finish probe devices i slots) (length-finish i slots ∙ n) lt,
  )

length-map {ℓ κ} :
    {A : Type ℓ} {B : Type κ} (f : A → B) (xs : List A) → length (map f xs) ≡ length xs
length-map f [] = refl
length-map f (x ∷ xs) = ap suc (length-map f xs)

-- Whatever the order in which the goroutines write their slots, repeated or not, as long as each
-- device's goroutine finishes: the report lists one entry for each scanned device, in scan order,
-- each with the result of the probe of that device.
pub probe_all_deterministic :
    (probe : Bytes → Fetched SmartDetails) (devices : List SmartScanDevice) (order : List ℕ)
    → ((i : ℕ) → i < length devices → finishes i order ≡ true)
    → probe_all probe devices order ≡ in_scan_order probe devices
unfolding probe_all
probe_all_deterministic probe devices order all =
    let blank = length-map (λ dev. no_report) devices in
    let done = length-finish_all probe devices order (blanks devices) ∙ blank in
    list_ext _ _ (done ∙ sym (length-map _ devices)) λ i lt.
      let inside : i < length devices = omega (arith, done) in
      finish_all-slot probe devices i order (blanks devices) blank inside ∙ rw (all i inside) refl
