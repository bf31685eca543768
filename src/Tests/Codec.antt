-- ===== src/Tests/Codec.antt =====
-- A codec that has the laws of `Json`: counts before the texts, the devices and the entries.
use elastic_gpu_agent.Prelude.{
  ℕ, zero, suc, ◌≡◌, refl, ap, Option, none, some, List, [], ◌∷◌, ◌++◌, append_assoc, Text, Dict,
  Result, ok, length,
}
use elastic_gpu_agent.Types.Device.{Device}
use elastic_gpu_agent.Types.Json.{Json}

unfoldable pub write_text : Text → Text
write_text t = length t ∷ t

unfoldable pub read_bytes : ℕ → Text → Text × Text
read_bytes zero s = ([], s)
read_bytes (suc n) [] = ([], [])
read_bytes (suc n) (c ∷ s) = let (t, rest) = read_bytes n s in (c ∷ t, rest)

unfoldable pub read_text : Text → Text × Text
read_text [] = ([], [])
read_text (n ∷ s) = read_bytes n s

unfoldable pub write_texts : List Text → Text
write_texts [] = []
write_texts (t ∷ ts) = write_text t ++ write_texts ts

unfoldable pub read_texts : ℕ → Text → List Text × Text
read_texts zero s = ([], s)
read_texts (suc n) s =
    let (t, rest) = read_text s in let (ts, rest') = read_texts n rest in (t ∷ ts, rest')

unfoldable pub write_device : Device → Text
write_device d =
    write_text d.hash ++ write_text d.resource_name ++ length d.list ∷ write_texts d.list

unfoldable pub read_list : Text → List Text × Text
read_list [] = ([], [])
read_list (n ∷ s) = read_texts n s

unfoldable pub read_device : Text → Device × Text
read_device s =
    let (h, s1) = read_text s in
    let (r, s2) = read_text s1 in
    let (l, s3) = read_list s2 in (record { hash = h; list = l; resource_name = r }, s3)

unfoldable pub write_entries : Dict Device → Text
write_entries [] = []
write_entries ((k, d) ∷ m) = write_text k ++ write_device d ++ write_entries m

unfoldable pub read_entries : ℕ → Text → Dict Device
read_entries zero s = []
read_entries (suc n) s =
    let (k, s1) = read_text s in let (d, s2) = read_device s1 in (k, d) ∷ read_entries n s2

unfoldable pub write : Option (Dict Device) → Text
write none = []
write (some m) = length m ∷ write_entries m

unfoldable pub read : Text → Option (Dict Device) → Result (Option (Dict Device))
read [] m = ok none
read (n ∷ s) m = ok (some (read_entries n s))

read-write_bytes : (t s : Text) → read_bytes (length t) (t ++ s) ≡ (t, s)
unfolding read_bytes
read-write_bytes [] s = refl
read-write_bytes (c ∷ t) s = ap (λ (r : Text × Text). (c ∷ r.0, r.1)) (read-write_bytes t s)

read-write_text : (t s : Text) → read_text (write_text t ++ s) ≡ (t, s)
unfolding read_text write_text
read-write_text t s = read-write_bytes t s

read-write_texts :
    (ts : List Text) (s : Text) → read_texts (length ts) (write_texts ts ++ s) ≡ (ts, s)
unfolding read_texts write_texts
read-write_texts [] s = refl
read-write_texts (t ∷ ts) s =
    rw (append_assoc, read-write_text t (write_texts ts ++ s), read-write_texts ts s)

read-write_device : (d : Device) (s : Text) → read_device (write_device d ++ s) ≡ (d, s)
unfolding read_device write_device read_list
read-write_device d s = simp (append_assoc, read-write_text, read-write_texts)

read-write_entries : (m : Dict Device) → read_entries (length m) (write_entries m) ≡ m
unfolding read_entries write_entries
read-write_entries [] = refl
read-write_entries ((k, d) ∷ m) =
    simp (append_assoc, read-write_text, read-write_device, read-write_entries m)

pub read-write : (m : Dict Device) → read (write (some m)) (some []) ≡ ok (some m)
unfolding read write
read-write m = rw (read-write_entries m)

pub read-write_nil : read (write none) (some []) ≡ ok none
unfolding read write
read-write_nil = refl

abbrev pub counted_json : Json
counted_json = record {
  marshal = write;
  unmarshal = read;
  unmarshal-marshal = λ m h p. read-write m;
  unmarshal-marshal_nil = read-write_nil;
}
