-- ===== src/Go/FilePath.antt =====
-- `path.Join` of two elements, with its `path.Clean`, by the segments between slashes.
use elastic_gpu_agent.Prelude.{
  ◌≡◌, ◌≢◌, refl, true, false, Bool, List, [], ◌∷◌, ◌++◌, arith, Text, text_eq, text_eq_of_ne, ◌==◌,
  if◌then◌else◌, Lacks,
}
use elastic_gpu_agent.Go.Strings.{split, join, split_one, split-append}
use mathlib.Core.List.{reverse}

abbrev dot : Text
dot = b'.' ∷ []

abbrev dot_dot : Text
dot_dot = b'.' ∷ b'.' ∷ []

-- `..` at the end of the segments read so far, which are kept in reverse
back : Bool → List Text → List Text
back rooted [] = if rooted then [] else dot_dot ∷ []
back rooted (s ∷ out) = if text_eq s dot_dot then dot_dot ∷ s ∷ out else out

step : Bool → List Text → Text → List Text
unfolding back
step rooted out seg =
    if text_eq seg []
    then out
    else if text_eq seg dot
    then out
    else if text_eq seg dot_dot
    then back rooted out
    else seg ∷ out

walk : Bool → List Text → List Text → List Text
unfolding step
walk rooted out [] = out
walk rooted out (seg ∷ segs) = walk rooted (step rooted out seg) segs

is_rooted : Text → Bool
is_rooted [] = false
is_rooted (c ∷ s) = c == b'/'

show : Bool → Text → Text
show true s = b'/' ∷ s
show false [] = dot
show false (c ∷ s) = c ∷ s

unfoldable pub clean : Text → Text
unfolding walk is_rooted show
clean p = show (is_rooted p) (join (reverse (walk (is_rooted p) [] (split p b'/'))) b'/')

unfoldable pub join_path : Text → Text → Text
unfolding clean
join_path [] [] = []
join_path [] (c ∷ b) = clean (c ∷ b)
join_path (c ∷ a) b = clean ((c ∷ a) ++ b'/' ∷ b)

-- A name that is one segment of a path, as the names of Kubernetes objects are.
pub record IsSegment (s : Text) : Type 0 where
  pub not_empty : s ≢ []
  pub not_dot : s ≢ dot
  pub not_dot_dot : s ≢ dot_dot
  pub no_slash : Lacks b'/' s

step_segment :
    (rooted : Bool) (out : List Text) (s : Text) → IsSegment s → step rooted out s ≡ s ∷ out
unfolding step
step_segment rooted out s h = rw (
  text_eq_of_ne s [] h.not_empty,
  text_eq_of_ne s dot h.not_dot,
  text_eq_of_ne s dot_dot h.not_dot_dot,
)

is_rooted_segment : (s t : Text) → IsSegment s → is_rooted (s ++ t) ≡ false
unfolding is_rooted
is_rooted_segment [] t h = absurd (h.not_empty refl)
is_rooted_segment (c ∷ s) t h = ground (arith, h.no_slash)

show_segment : (s t : Text) → IsSegment s → show false (s ++ t) ≡ s ++ t
unfolding show
show_segment [] t h = absurd (h.not_empty refl)
show_segment (c ∷ s) t h = refl

join_path-clean : (a b : Text) → IsSegment a → join_path a b ≡ clean (a ++ b'/' ∷ b)
unfolding join_path
join_path-clean [] b h = absurd (h.not_empty refl)
join_path-clean (c ∷ a) b h = refl

-- Two segments are joined by a slash, and nothing is cleaned away.
pub join_path_segments : (a b : Text) → IsSegment a → IsSegment b → join_path a b ≡ a ++ b'/' ∷ b
unfolding clean walk join
join_path_segments a b ha hb =
    rw
      (
        join_path-clean a b ha,
        is_rooted_segment a (b'/' ∷ b) ha,
        split-append a b b'/' ha.no_slash,
        split_one b b'/' hb.no_slash,
      )
      (rw (step_segment false [] a ha, step_segment false (a ∷ []) b hb)
        (show_segment a (b'/' ∷ b) ha))
