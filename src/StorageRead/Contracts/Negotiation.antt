-- ===== src/StorageRead/Contracts/Negotiation.antt =====
-- negotiateStreamCount: the count lies between the advisory bounds and below the service's limit.
use go_bemu.Base.{ℕ, String, ◌≤◌, ◌<◌, ◌≡◌, ◌⊎◌, arith}
use go_bemu.Words.{half32, word32, lt32}
use go_bemu.Exec.{ok, err}
use go_bemu.StorageRead.Contracts.{negotiate_stream_count}

-- What a negotiated count promises for the request's bounds.
pub record IsNegotiated (max_streams maximum preferred count : ℕ) : Type 0 where
  pub positive : 0 < count
  pub limited : count ≤ max_streams
  pub at_most : (maximum ≡ 0) ⊎ (count ≤ maximum)
  pub at_least : (preferred ≤ count) ⊎ (count ≡ max_streams)
  pub wanted : (maximum < half32) × (preferred < half32) × ((maximum ≡ 0) ⊎ (preferred ≤ maximum))

-- If the service's default is positive and within its limit, then a count that is negotiated is
-- positive, at most the limit and the request's maximum (0 stands for none), and at least the
-- preferred minimum unless it is the limit; and the request's bounds were neither negative nor
-- contradictory.
pub negotiate-IsNegotiated :
    (max_streams default_count maximum preferred count : ℕ)
    → max_streams < half32
    → 0 < default_count
    → default_count ≤ max_streams
    → maximum < word32
    → preferred < word32
    → negotiate_stream_count max_streams default_count maximum preferred ≡ ok count
    → IsNegotiated max_streams maximum preferred count
unfolding negotiate_stream_count lt32
negotiate-IsNegotiated max_streams default_count maximum preferred count hs hd hl hm hp h =
    ground arith

-- A request whose bounds are neither negative nor contradictory is never refused.
pub negotiate_accepts :
    (max_streams default_count maximum preferred : ℕ)
    → max_streams < half32
    → maximum < half32
    → preferred < half32
    → (maximum ≡ 0) ⊎ (preferred ≤ maximum)
    → (m : String) → ¬ (negotiate_stream_count max_streams default_count maximum preferred ≡ err m)
unfolding negotiate_stream_count lt32
negotiate_accepts max_streams default_count maximum preferred hs hm hp h m = ground arith
