-- ===== src/Plugins/Gc/Lines.antt =====
-- The lines that a round of the collector collects.
use elastic_gpu_agent.Prelude.{
  Member-append_left, Member-append_right, ap, subst, Member-of_eq, Member-cases, ◌≡◌, inl, inr,
  refl, true, Option, none, some, List, [], ◌∷◌, Text, All, All-append, Member, first, later, Dict,
  Bool-cases,
}
use elastic_gpu_agent.Types.Device.{Device}
use elastic_gpu_agent.Types.Pod.{PodInfo}
use elastic_gpu_agent.Types.Pod.RoundTrip.{IsValid}
use elastic_gpu_agent.Storage.Iteration.{visit}
use elastic_gpu_agent.Kube.Sitter.{PodSitter}
use elastic_gpu_agent.Plugins.Gc.{Line, lines_of, lines_of_map, is_gone, collect}

-- A line of the collector: the device of a container in a record, whose pod is gone.
pub record IsGoneLine (sitter : PodSitter) (Recorded : PodInfo → Type 0) (l : Line) : Type 0 where
  pub pod : PodInfo
  pub valid : IsValid pod
  pub recorded : Recorded pod
  pub gone : is_gone sitter pod.namespace pod.name ≡ true
  pub devices : Dict Device
  pub has_devices : pod.container_device_map ≡ some devices
  pub member : Member (l.container, l.device) devices
  pub namespace : l.namespace ≡ pod.namespace
  pub name : l.name ≡ pod.name

-- The line of a device.
abbrev pub line_of : PodInfo → Text → Device → Line
line_of p c d = record { namespace = p.namespace; name = p.name; container = c; device = d }

module _ (sitter : PodSitter) (Recorded : PodInfo → Type 0) where
  lines_of-gone :
      (p : PodInfo) (m whole : Dict Device)
      → IsValid p
      → Recorded p
      → is_gone sitter p.namespace p.name ≡ true
      → p.container_device_map ≡ some whole
      → ((e : Text × Device) → Member e m → Member e whole)
      → All (IsGoneLine sitter Recorded) (lines_of p m)
  unfolding lines_of
  lines_of-gone p [] whole h r g e sub = tt
  lines_of-gone p ((c, d) ∷ m) whole h r g e sub = (
    record {
      pod = p;
      valid = h;
      recorded = r;
      gone = g;
      devices = whole;
      has_devices = e;
      member = sub (c, d) first;
      namespace = refl;
      name = refl;
    },
    lines_of-gone p m whole h r g e (λ x k. sub x (later k)),
  )

  collect-gone :
      (p : PodInfo) (lines : List Line)
      → IsValid p
      → Recorded p
      → All (IsGoneLine sitter Recorded) lines
      → All (IsGoneLine sitter Recorded) (collect sitter p lines).1
  unfolding collect lines_of_map
  collect-gone p lines h r a = elim (Bool-cases (is_gone sitter p.namespace p.name)) [
    | inr here ↦ rw here a
    | inl gone ↦ rw gone (
        All-append (IsGoneLine sitter Recorded) lines _ a (of_map p.container_device_map refl gone))
  ]
    where
      of_map :
          (o : Option (Dict Device))
          → p.container_device_map ≡ o
          → is_gone sitter p.namespace p.name ≡ true
          → All (IsGoneLine sitter Recorded) (lines_of_map p o)
      of_map none e g = tt
      of_map (some m) e g = lines_of-gone p m m h r g e (λ x k. k)

  visit-collect :
      (p : PodInfo) (ps : List PodInfo) (lines : List Line)
      → (visit (collect sitter) (p ∷ ps) lines).1
        ≡ (visit (collect sitter) ps (collect sitter p lines).1).1
  unfolding visit collect
  visit-collect p ps lines = refl

  pub visit-gone :
      (ps : List PodInfo) (lines : List Line)
      → All IsValid ps
      → ((p : PodInfo) → IsValid p → Member p ps → Recorded p)
      → All (IsGoneLine sitter Recorded) lines
      → All (IsGoneLine sitter Recorded) (visit (collect sitter) ps lines).1
  visit-gone [] lines h r a = unfold visit in a
  visit-gone (p ∷ ps) lines h r a = rw (visit-collect p ps lines) (
      visit-gone ps (collect sitter p lines).1 h.1 (λ q hq m. r q hq (later m))
        (collect-gone p lines h.0 (r p h.0 first) a))

module _ (sitter : PodSitter) where
  -- A line that was collected stays, and those of a gone pod's devices are collected.
  stays-visit :
      (l : Line) (ps : List PodInfo) (lines : List Line)
      → Member l lines
      → Member l (visit (collect sitter) ps lines).1
  unfolding visit collect
  stays-visit l [] lines m = m
  stays-visit l (p ∷ ps) lines m = stays-visit l ps (collect sitter p lines).1 (stays-collect m)
    where
      stays-collect : Member l lines → Member l (collect sitter p lines).1
      stays-collect m = elim (Bool-cases (is_gone sitter p.namespace p.name)) [
        | inl gone ↦ rw gone (Member-append_left lines _ m)
        | inr here ↦ rw here m
      ]

  Member-lines_of :
      (p : PodInfo) (c : Text) (d : Device) (m : Dict Device)
      → Member (c, d) m
      → Member (line_of p c d) (lines_of p m)
  unfolding lines_of
  Member-lines_of p c d [] k = elim k [ ]
  Member-lines_of p c d ((c', d') ∷ m) k = elim (Member-cases k) [
    | inl e ↦ Member-of_eq _ (ap (λ (x : Text × Device). line_of p x.0 x.1) e)
    | inr n ↦ later (Member-lines_of p c d m n)
  ]

  collected :
      (p : PodInfo) (c : Text) (d : Device) (m : Dict Device) (lines : List Line)
      → is_gone sitter p.namespace p.name ≡ true
      → p.container_device_map ≡ some m
      → Member (c, d) m
      → Member (line_of p c d) (collect sitter p lines).1
  unfolding collect lines_of_map
  collected p c d m lines g e h =
      rw (g, e) (Member-append_right lines (lines_of p m) (Member-lines_of p c d m h))

  pub Member-visit :
      (p : PodInfo) (c : Text) (d : Device) (m : Dict Device) (ps : List PodInfo)
      (lines : List Line)
      → Member p ps
      → is_gone sitter p.namespace p.name ≡ true
      → p.container_device_map ≡ some m
      → Member (c, d) m
      → Member (line_of p c d) (visit (collect sitter) ps lines).1
  unfolding visit collect
  Member-visit p c d m [] lines k g e h = elim k [ ]
  Member-visit p c d m (q ∷ ps) lines k g e h = elim (Member-cases k) [
    | inl same ↦ stays-visit (line_of p c d) ps _ (
        subst (λ x. Member (line_of p c d) (collect sitter x lines).1) same
          (collected p c d m lines g e h))
    | inr n ↦ Member-visit p c d m ps _ n g e h
  ]
