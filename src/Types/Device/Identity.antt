-- ===== src/Types/Device/Identity.antt =====
-- When two devices are the same: exactly when they have the same ids, in any order, and the same
-- resource.
use mathlib.Core.List.{Perm}
use mathlib.Core.List.Perm
use elastic_gpu_agent.Prelude.{
  ◌≡◌, ◌↔◌, refl, sym, ap, ◌∙◌, true, List, [], ◌∷◌, arith, Text, length, text_eq_iff, text_eq_refl,
}
use elastic_gpu_agent.Go.Sort
use elastic_gpu_agent.Go.Sort.{strings_of_perm, strings-perm, IsAscending, strings-IsAscending}
use elastic_gpu_agent.Types.Device.{Device, clone, hash, new_device, same, equals, device_equals}

clone_lem : (l : List Text) → clone l ≡ l
unfolding clone
clone_lem [] = refl
clone_lem (x ∷ l) = ap (λ r. x ∷ r) (clone_lem l)

pub new_device_lem :
    (l : List Text) (r : Text)
    → new_device l r
      ≡ record { hash = hash (Sort.strings l); list = Sort.strings l; resource_name = r }
unfolding new_device
new_device_lem l r = rw clone_lem

-- The order in which the ids are given does not matter.
pub new_device_of_perm : (l m : List Text) (r : Text) → Perm l m → new_device l r ≡ new_device m r
new_device_of_perm l m r p = rw (new_device_lem l r, new_device_lem m r, strings_of_perm p)

same_sound : (a b : List Text) → length a ≡ length b → same a b ≡ true → a ≡ b
unfolding same
same_sound [] [] e h = refl
same_sound [] (b ∷ bs) e h = absurd (omega arith)
same_sound (a ∷ l) [] e h = absurd (omega arith)
same_sound (a ∷ l) (b ∷ m) e h = ground (arith, text_eq_iff a b, same_sound l m (omega arith))

same_refl : (a : List Text) → same a a ≡ true
unfolding same
same_refl [] = refl
same_refl (a ∷ l) = ground (arith, text_eq_refl a, same_refl l)

equals_iff : (a b : List Text) → (equals a b ≡ true) ↔ (a ≡ b)
unfolding equals
equals_iff a b = (λ h. ground (arith, same_sound a b), λ e. rw e (ground (arith, same_refl b)))

-- `Equals` decides the equality of devices.
pub device_equals_iff : (d o : Device) → (device_equals d o ≡ true) ↔ (d ≡ o)
unfolding device_equals
device_equals_iff d o = (
  λ h. ground (
    arith,
    text_eq_iff d.hash o.hash,
    equals_iff d.list o.list,
    text_eq_iff d.resource_name o.resource_name,
  ),
  λ e. rw e (
      ground (
        arith,
        text_eq_refl o.hash,
        (equals_iff o.list o.list).1 refl,
        text_eq_refl o.resource_name,
      )),
)

perm_of_new_device : (l m : List Text) (r s : Text) → new_device l r ≡ new_device m s → Perm l m
perm_of_new_device l m r s e =
    let sorted : Sort.strings l ≡ Sort.strings m =
      ap (λ (d : Device). d.list) (sym (new_device_lem l r) ∙ e ∙ new_device_lem m s) in
    Perm.trans (Perm.symm (strings-perm l)) (rw sorted (strings-perm m))

-- Two devices made of lists of ids are equal by `Equals` exactly when the lists have the same ids,
-- each as often, and the resources have one name.
pub device_equals-new_device :
    (l m : List Text) (r s : Text)
    → (device_equals (new_device l r) (new_device m s) ≡ true) ↔ (Perm l m × (r ≡ s))
device_equals-new_device l m r s = (
  λ h.
      let e = (device_equals_iff (new_device l r) (new_device m s)).0 h in
      (
        perm_of_new_device l m r s e,
        ap (λ (d : Device). d.resource_name) (sym (new_device_lem l r) ∙ e ∙ new_device_lem m s),
      ),
  λ p.
      (device_equals_iff (new_device l r) (new_device m s)).1
        (rw p.1 (new_device_of_perm l m s p.0)),
)
