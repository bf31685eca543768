-- ===== src/Plugins/Share.antt =====
-- The name of a share: `%s-%d` of a device's hash and the share's number.
use elastic_gpu_agent.Prelude.{ℕ, ◌≡◌, ◌∷◌, ◌++◌, Text, pos, append_cancel_left}
use elastic_gpu_agent.Go.Strconv.{itoa, format_uint, format_uint-injective}

unfoldable pub share_id : Text → ℕ → Text
share_id hash i = hash ++ b'-' ∷ itoa (pos i)

-- The shares of one device have distinct names.
pub share_id-injective : (hash : Text) (i j : ℕ) → share_id hash i ≡ share_id hash j → i ≡ j
unfolding share_id itoa
share_id-injective hash i j e =
    let tails : b'-' ∷ format_uint i ≡ b'-' ∷ format_uint j = append_cancel_left hash _ _ e in
    format_uint-injective i j (cc)
