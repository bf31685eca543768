-- ===== src/Hook/Minors.antt =====
-- `getNVidiaDevMinorAndIndexMapping` (cmd/elastic-gpu-hook/main.go): the minor numbers of the GPUs, by
-- index, from the files of NVIDIA's driver. The hook does not call it.
use elastic_gpu_agent.Prelude.{
  append-nil, sym, ℕ, ◌<◌, ◌^◌, ◌≡◌, refl, ap, ◌∙◌, Bool, true, false, ◌||◌, ◌==◌, Option, none,
  some, List, [], ◌∷◌, ◌++◌, arith, Text, codes, text_eq, if◌then◌else◌, map, All, Lacks, ℤ, pos,
  append_assoc,
}
use elastic_gpu_agent.Go.FilePath.{clean}
use elastic_gpu_agent.Go.Strconv.{atoi, itoa, atoi-itoa, format_uint, IsDigit, format_uint-IsDigit}
use elastic_gpu_agent.Go.Strings
use elastic_gpu_agent.Go.Strings.{trim, trim_front, split-append, split_one, has_prefix-append}

abbrev information_dir : Text
information_dir = codes "/proc/driver/nvidia/gpus/"

-- the path of a GPU's file: `path.Join` of three elements
pub information_file : Text → Text
information_file name = clean (information_dir ++ b'/' ∷ name ++ codes "/information")

drop_cr : Text → Text
drop_cr [] = []
drop_cr (c ∷ []) = if c == 13 then [] else c ∷ []
drop_cr (c ∷ d ∷ s) = c ∷ drop_cr (d ∷ s)

lines_of_parts : List Text → List Text
unfolding drop_cr
lines_of_parts [] = []
lines_of_parts (s ∷ []) = if text_eq s [] then [] else drop_cr s ∷ []
lines_of_parts (s ∷ t ∷ parts) = drop_cr s ∷ lines_of_parts (t ∷ parts)

-- The lines that `bufio.Scanner` finds, in a text without a line over its limit of 64 KiB.
unfoldable pub scan_lines : Text → List Text
unfolding lines_of_parts
scan_lines content = lines_of_parts (Strings.split content 10)

abbrev minor_prefix : Text
minor_prefix = codes "Device Minor:"

-- the cutset of a tab and a space
is_blank : ℕ → Bool
is_blank c = c == 9 || c == 32

-- `strings.Split(line, ":")[1]`, which is there behind the prefix
second_part : List Text → Text
second_part (a ∷ b ∷ parts) = b
second_part parts = []

minor_of : Text → Option ℤ
unfolding second_part is_blank
minor_of line = atoi (trim is_blank (second_part (Strings.split line b':')))

add_minor : Option ℤ → List ℤ → Option (List ℤ)
add_minor none minors = none
add_minor (some z) minors = some (minors ++ z ∷ [])

add_line : Text → List ℤ → Option (List ℤ)
unfolding add_minor minor_of
add_line line minors =
    if Strings.has_prefix line minor_prefix then add_minor (minor_of line) minors else some minors

-- `return nil` for `none`
abbrev unless_nil : Option (List ℤ) → (List ℤ → Option (List ℤ)) → Option (List ℤ)
unless_nil none f = none
unless_nil (some minors) f = f minors

-- The loop over the lines of a file. The map sends each index to its minor number, so it is the list
-- of these; a minor that cannot be read makes the result the nil map.
add_lines : List Text → List ℤ → Option (List ℤ)
unfolding add_line
add_lines [] minors = some minors
add_lines (line ∷ lines) minors = unless_nil (add_line line minors) (add_lines lines)

-- A file that cannot be opened has no lines.
lines_of_file : Option Text → List Text
lines_of_file none = []
lines_of_file (some content) = scan_lines content

add_gpus : (Text → Option Text) → List Text → List ℤ → Option (List ℤ)
unfolding add_lines lines_of_file information_file
add_gpus open_file [] minors = some minors
add_gpus open_file (name ∷ names) minors =
    unless_nil (add_lines (lines_of_file (open_file (information_file name))) minors)
      (add_gpus open_file names)

-- `read_dir` is what `ioutil.ReadDir` lists, by the names of the files.
unfoldable pub get_nvidia_dev_minor_and_index_mapping :
    Option (List Text) → (Text → Option Text) → Option (List ℤ)
unfolding add_gpus
get_nvidia_dev_minor_and_index_mapping none open_file = none
get_nvidia_dev_minor_and_index_mapping (some names) open_file = add_gpus open_file names []

-- The lines of a GPU's file: one gives the minor number, behind a tab and a space, and no other has
-- the prefix.
pub data Informs (m : ℕ) : List Text → Type 0 where
  minor_line :
      {lines : List Text}
      → All (λ l. Strings.has_prefix l minor_prefix ≡ false) lines
      → Informs m ((minor_prefix ++ 9 ∷ 32 ∷ itoa (pos m)) ∷ lines)
  other_line :
      {line : Text} {lines : List Text}
      → Strings.has_prefix line minor_prefix ≡ false
      → Informs m lines
      → Informs m (line ∷ lines)

digits-blank : (s : Text) → All IsDigit s → All (λ c. is_blank c ≡ false) s
unfolding is_blank
digits-blank [] h = tt
digits-blank (c ∷ s) ((lo, hi), h) = (ground arith, digits-blank s h)

digits-colon : (s : Text) → All IsDigit s → Lacks b':' s
digits-colon [] h = tt
digits-colon (c ∷ s) ((lo, hi), h) = (omega arith, digits-colon s h)

name_Lacks : Lacks b':' (codes "Device Minor")
name_Lacks = omega arith

split-minor_line :
    (s : Text)
    → Lacks b':' s
    → Strings.split (minor_prefix ++ s) b':' ≡ codes "Device Minor" ∷ s ∷ []
split-minor_line s h =
    split-append (codes "Device Minor") s b':' name_Lacks
    ∙ ap (λ ps. codes "Device Minor" ∷ ps) (split_one s b':' h)

minor_of-minor_line :
    (m : ℕ) → m < 2 ^ 63 → minor_of (minor_prefix ++ 9 ∷ 32 ∷ itoa (pos m)) ≡ some (pos m)
unfolding minor_of second_part itoa
minor_of-minor_line m h =
    let digits = format_uint-IsDigit m in
    rw
      (
        split-minor_line (9 ∷ 32 ∷ format_uint m)
            (omega arith, (omega arith, digits-colon (format_uint m) digits)),
        trim_front is_blank (9 ∷ 32 ∷ []) (format_uint m) (blanks)
            (digits-blank (format_uint m) digits),
      )
      (atoi-itoa (pos m) h)
  where
    blanks : All (λ c. is_blank c ≡ true) (9 ∷ 32 ∷ [])
    blanks = unfold is_blank in (refl, (refl, tt))

add_line_other :
    (line : Text) (minors : List ℤ)
    → Strings.has_prefix line minor_prefix ≡ false
    → add_line line minors ≡ some minors
unfolding add_line
add_line_other line minors h =
    ap (λ (b : Bool). if b then add_minor (minor_of line) minors else some minors) h

add_line_minor :
    (m : ℕ) (minors : List ℤ)
    → m < 2 ^ 63
    → add_line (minor_prefix ++ 9 ∷ 32 ∷ itoa (pos m)) minors ≡ some (minors ++ pos m ∷ [])
unfolding add_line add_minor
add_line_minor m minors h =
    let line = minor_prefix ++ 9 ∷ 32 ∷ itoa (pos m) in
    ap (λ (b : Bool). if b then add_minor (minor_of line) minors else some minors)
      (has_prefix-append minor_prefix (9 ∷ 32 ∷ itoa (pos m)))
    ∙ ap (λ o. add_minor o minors) (minor_of-minor_line m h)

add_lines_other :
    (lines : List Text) (minors : List ℤ)
    → All (λ l. Strings.has_prefix l minor_prefix ≡ false) lines
    → add_lines lines minors ≡ some minors
unfolding add_lines
add_lines_other [] minors h = refl
add_lines_other (l ∷ lines) minors h =
    ap (λ o. unless_nil o (add_lines lines)) (add_line_other l minors h.0)
    ∙ add_lines_other lines minors h.1

add_lines-Informs :
    (m : ℕ) (lines : List Text) (minors : List ℤ)
    → m < 2 ^ 63
    → Informs m lines
    → add_lines lines minors ≡ some (minors ++ pos m ∷ [])
unfolding add_lines
add_lines-Informs m lines minors h (minor_line {lines = rest} others) =
    ap (λ o. unless_nil o (add_lines rest)) (add_line_minor m minors h)
    ∙ add_lines_other rest (minors ++ pos m ∷ []) others
add_lines-Informs m lines minors h (other_line {line = line} {lines = rest} o i) =
    ap (λ x. unless_nil x (add_lines rest)) (add_line_other line minors o)
    ∙ add_lines-Informs m rest minors h i

-- A GPU's directory, by its name, with a file that can be opened and informs of the minor number.
pub data AllInform (open_file : Text → Option Text) : List ℕ → List Text → Type 0 where
  none_left : AllInform open_file [] []
  one_more :
      {m : ℕ} {ms : List ℕ} {name : Text} {names : List Text} (content : Text)
      → m < 2 ^ 63
      → open_file (information_file name) ≡ some content
      → Informs m (scan_lines content)
      → AllInform open_file ms names
      → AllInform open_file (m ∷ ms) (name ∷ names)

add_gpus-AllInform :
    (open_file : Text → Option Text) (ms : List ℕ) (names : List Text) (minors : List ℤ)
    → AllInform open_file ms names
    → add_gpus open_file names minors ≡ some (minors ++ map pos ms)
unfolding add_gpus lines_of_file
add_gpus-AllInform open_file ms names minors none_left = ap some (sym (append-nil minors))
add_gpus-AllInform open_file (m ∷ ms) (name ∷ names) minors (one_more content h o i rest) =
    ap (λ x. unless_nil (add_lines (lines_of_file x) minors) (add_gpus open_file names)) o
    ∙ ap (λ x. unless_nil x (add_gpus open_file names))
        (add_lines-Informs m (scan_lines content) minors h i)
    ∙ add_gpus-AllInform open_file ms names (minors ++ pos m ∷ []) rest
    ∙ ap some (append_assoc minors (pos m ∷ []) (map pos ms))

-- If the driver's directory lists the GPUs in order, and the file of each can be opened and gives a
-- minor number below 2 ^ 63 behind a tab and a space in one line with the prefix, then the mapping
-- sends each index to the minor number of the GPU with the index.
pub get_nvidia_dev_minor_and_index_mapping-AllInform :
    (open_file : Text → Option Text) (ms : List ℕ) (names : List Text)
    → AllInform open_file ms names
    → get_nvidia_dev_minor_and_index_mapping (some names) open_file ≡ some (map pos ms)
unfolding get_nvidia_dev_minor_and_index_mapping
get_nvidia_dev_minor_and_index_mapping-AllInform open_file ms names h =
    add_gpus-AllInform open_file ms names [] h
