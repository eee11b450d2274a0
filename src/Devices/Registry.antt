-- ===== src/Devices/Registry.antt =====
-- Registration and lookup by name in the table of devices of services/drv/device.c.
use ittrium.Common.{
  ℕ, ◌+◌, ◌≤◌, ◌<◌, ◌≡◌, ◌≢◌, ◌∙◌, sym, ap, refl, arith, Bool, true, false, ◌||◌, none, some, leb,
  ◌==◌, put, Bool-cases, Option-cases, inl, inr, subst, ℕ_discrete,
}
use ittrium.Common.Int.{pos}
use ittrium.Common.Table.{find_slot, find_slot-some, find_slot-none, find_slot-first}
use ittrium.Text.{Text, text_eq, text_eq_refl, text_eq_no}
use ittrium.Devices.{
  Device, Devices, is_called, itt_device_add, itt_device_find, itt_devices_max, Netdev,
  netdev_register, netdev_get, itt_dev_net,
}

-- The devices in use fit into the table and have different names.
pub record IsRegistry (d : Devices) : Type 0 where
  pub room : d.n ≤ itt_devices_max
  pub unique : (i j : ℕ) → i < j → j < d.n → (d.slot i).name ≢ (d.slot j).name

-- What a successful itt_device_add does.
pub record IsAdded (name : Text) (class drv : ℕ) (d d' : Devices) : Type 0 where
  pub registry : IsRegistry d'
  pub found :
      itt_device_find (some name) d' ≡ some (record { name = name; class = class; drv = drv })
  pub others :
      (other : Text)
      → other ≢ name
      → itt_device_find (some other) d' ≡ itt_device_find (some other) d

put-here : (t : ℕ → Device) (i : ℕ) (e : Device) → put t i e i ≡ e
put-here t i e = ground arith

put-there : (t : ℕ → Device) (i k : ℕ) (e : Device) → k < i → put t i e k ≡ t k
put-there t i k e l = ground arith

-- A search in a table with one more entry that has not the property.
find_slot-suc :
    (p : Device → Bool) (n : ℕ) (t : ℕ → Device) (e : Device)
    → p e ≡ false
    → find_slot p (n + 1) (put t n e) ≡ find_slot p n t
find_slot-suc p n t e out = elim (Option-cases (find_slot p n t)) [
  | inr (j, f) ↦
      let (first, below) = find_slot-some p n j t f in
      rw f (
        find_slot-first p (n + 1) j (put t n e)
          (record {
            holds = rw (put-there t n j e below) first.holds;
            from = omega arith;
            before = λ k a b. rw (put-there t n k e (lt-trans k j n b below)) (first.before k a b);
          })
          (omega arith))
  | inl f ↦ elim (Option-cases (find_slot p (n + 1) (put t n e))) [
    | inl g ↦ g ∙ sym f
    | inr (j, g) ↦
        let (first, below) = find_slot-some p (n + 1) j (put t n e) g in
        elim (ℕ_discrete j n) [
          | yes q ↦
              let h : p (put t n e n) ≡ true = subst (λ x. p (put t n e x) ≡ true) q first.holds in
              cc (sym (ap p (put-here t n e)) ∙ h, out)
          | no q ↦
              let less : j < n = omega arith in
              cc (sym (ap p (put-there t n j e less)) ∙ first.holds, find_slot-none p n t f j less)
        ]
  ]
]
  where
    lt-trans : (a b d : ℕ) → a < b → b < d → a < d
    lt-trans a b d l m = omega arith

found_at :
    (name : Text) (d : Devices) (i : ℕ)
    → find_slot (is_called name) d.n d.slot ≡ some i
    → itt_device_find (some name) d ≡ some (d.slot i)
unfolding itt_device_find
found_at name d i e = rw (e, itt_device_find) refl

found_none :
    (name : Text) (d : Devices)
    → find_slot (is_called name) d.n d.slot ≡ none
    → itt_device_find (some name) d ≡ none
unfolding itt_device_find
found_none name d e = rw (e, itt_device_find) refl

-- An itt_device_add that succeeds on a registry adds the device: it is found by its name, every
-- other name leads where it led before, and the names are still unique and within the table.
pub itt_device_add-IsAdded :
    (name : Text) (class drv : ℕ) (d d' : Devices)
    → IsRegistry d
    → itt_device_add (some name) class drv d ≡ (d', pos 0)
    → IsAdded name class drv d d'
unfolding itt_device_add
itt_device_add-IsAdded name class drv d d' r q = elim (Bool-cases (drv == 0 || class == 0)) [
  | inl e ↦ cc (rw (e, itt_device_add) at q)
  | inr valid ↦ elim (Bool-cases (leb 8 d.n)) [
    | inl e ↦ cc (rw (valid, e, itt_device_add) at q)
    | inr room ↦ elim (Option-cases (find_slot (is_called name) d.n d.slot)) [
      | inr (i, e) ↦ cc (rw (valid, room, e, itt_device_add) at q)
      | inl e ↦
          let state = ap (λ p. p.0) (rw (valid, room, e, itt_device_add) at q) in
          subst (IsAdded name class drv d) state (added e (ground arith))
    ]
  ]
]
  where
    dev : Device
    dev = record { name = name; class = class; drv = drv }

    d1 : Devices
    d1 = record d { slot = put d.slot d.n dev; n = d.n + 1 }

    unique_names :
        ((k : ℕ) → k < d.n → is_called name (d.slot k) ≡ false)
        → (i j : ℕ) → i < j
        → j ≤ d.n
        → (put d.slot d.n dev i).name ≢ (put d.slot d.n dev j).name
    unique_names free i j l m = elim (ℕ_discrete j d.n) [
      | no q ↦
          rw (put-there d.slot d.n i dev (omega arith), put-there d.slot d.n j dev (omega arith))
            (r.unique i j l (omega arith))
      | yes q ↦ λ same.
          let old = ap (λ (x : Device). x.name) (put-there d.slot d.n i dev (omega arith)) in
          let new : (put d.slot d.n dev j).name ≡ name =
            ap (λ k. (put d.slot d.n dev k).name) q
            ∙ ap (λ (x : Device). x.name) (put-here d.slot d.n dev) in
          let z : text_eq (d.slot i).name name ≡ true =
            subst (λ x. text_eq x name ≡ true) (sym (sym old ∙ same ∙ new)) (text_eq_refl name) in
          cc (z, free i (omega arith))
    ]

    other_name :
        (other : Text)
        → text_eq name other ≡ false
        → itt_device_find (some other) d1 ≡ itt_device_find (some other) d
    other_name other n =
        let same = find_slot-suc (is_called other) d.n d.slot dev n in
        elim (Option-cases (find_slot (is_called other) d.n d.slot)) [
          | inl e ↦ found_none other d1 (same ∙ e) ∙ sym (found_none other d e)
          | inr (i, e) ↦
              let (_, below) = find_slot-some (is_called other) d.n i d.slot e in
              found_at other d1 i (same ∙ e)
              ∙ ap some (put-there d.slot d.n i dev below)
              ∙ sym (found_at other d i e)
        ]

    added : find_slot (is_called name) d.n d.slot ≡ none → d.n < 8 → IsAdded name class drv d d1
    added e room =
        let free = λ (k : ℕ) (l : k < d.n). find_slot-none (is_called name) d.n d.slot e k l in
        let here = put-here d.slot d.n dev in
        let hit : find_slot (is_called name) (d.n + 1) (put d.slot d.n dev) ≡ some d.n =
          find_slot-first (is_called name) (d.n + 1) d.n (put d.slot d.n dev)
            (record {
              holds = rw here (text_eq_refl name);
              from = omega arith;
              before = λ k _ l. rw (put-there d.slot d.n k dev l) (free k l);
            })
            (omega arith) in
        record {
          registry = record {
            room = omega arith;
            unique = λ i j l m. unique_names free i j l (omega arith);
          };
          found = found_at name d1 d.n hit ∙ ap some here;
          others = λ other n. other_name other (text_eq_no name other (λ e. n (sym e)));
        }

-- A network device that netdev_register puts into a registry with success is the one that netdev_get
-- finds under its name.
pub netdev_register-netdev_get :
    (nets : ℕ → Netdev) (name : Text) (dev : ℕ) (d d' : Devices)
    → IsRegistry d
    → (nets dev).name ≡ some name
    → netdev_register nets dev d ≡ (d', pos 0)
    → netdev_get (some name) d' ≡ some dev
unfolding netdev_register netdev_get
netdev_register-netdev_get nets name dev d d' r n q =
    elim (Bool-cases (dev == 0 || (nets dev).ops == 0)) [
      | inl e ↦ cc (rw (n, e, netdev_register) at q)
      | inr valid ↦
          let a =
            itt_device_add-IsAdded name itt_dev_net dev d d' r
              (rw (n, valid, netdev_register) at q) in
          rw (a.found, netdev_get) refl
    ]
