-- ===== src/Tags/Decoding.antt =====
-- What progressCommunication makes of a tag.
use openfpm_vcluster.Prelude.{ℕ, ◌+◌, ◌-◌, ◌*◌, ◌/◌, ◌≤◌, ◌<◌, ◌≡◌, ◌≢◌, true, arith}
use openfpm_vcluster.Tags.{tag_span, sparse_tag, known_tag, point_tag, slot_of_tag, in_window}

quotient : (n i : ℕ) → i < tag_span → (8192 + n * 131072 + i - 8192) / 131072 ≡ n
quotient n i h = omega arith

slot_of_tag-at :
    (base n i : ℕ)
    → i < tag_span
    → base ≤ n
    → n < 2147483648
    → slot_of_tag base (8192 + n * 131072 + i) ≡ n - base
unfolding slot_of_tag
slot_of_tag-at base n i h b l = omega arith

-- A message that a process queued at position `q` when its NBX_cnt was `cnt` and its queue started
-- at `base` is decoded to its distance from `base`, and lies in the window of the tags in use if
-- that distance is below the number of queued calls. Each call sends fewer than 131072 messages.
pub slot_of_tag-sparse_tag :
    (base cnt q i queued : ℕ)
    → i < tag_span
    → base ≤ cnt
    → cnt + q < 2147483648
    → cnt + q < base + queued
    → (slot_of_tag base (sparse_tag cnt q i) ≡ cnt + q - base)
      × (in_window base queued (sparse_tag cnt q i) ≡ true)
unfolding sparse_tag in_window
slot_of_tag-sparse_tag base cnt q i queued h b l w =
    (slot_of_tag-at base (cnt + q) i h (omega arith) l, ground arith)

-- Messages of different calls, or of different positions in one call, never share a tag.
pub sparse_tag-injective :
    (cnt q i cnt' q' i' : ℕ)
    → i < tag_span
    → i' < tag_span
    → sparse_tag cnt q i ≡ sparse_tag cnt' q' i'
    → (cnt + q ≡ cnt' + q') × (i ≡ i')
unfolding sparse_tag
sparse_tag-injective cnt q i cnt' q' i' h h' e = omega arith

-- A message of another exchange (`n` is its NBX_cnt plus its position) is never taken for one of
-- this process's first queued exchange: its tag decodes to another position.
pub slot_of_tag-foreign :
    (base n q i : ℕ)
    → i < tag_span
    → base < 2147483648
    → n + q < 2147483648
    → n + q ≢ base
    → slot_of_tag base (sparse_tag n q i) ≢ 0
unfolding slot_of_tag sparse_tag
slot_of_tag-foreign base n q i h b l ne e = omega arith

-- The calls with known receivers use tags inside the window too: a message that such a call sends
-- at NBX_cnt `cnt` decodes to the same queue position as the sparse messages of `cnt`, and has the
-- tag of its sparse message number 4096.
pub known_tag_collides :
    (base cnt queued : ℕ)
    → base ≤ cnt
    → cnt < 2147483648
    → cnt < base + queued
    → (slot_of_tag base (point_tag (known_tag cnt)) ≡ cnt - base)
      × (in_window base queued (point_tag (known_tag cnt)) ≡ true)
      × (point_tag (known_tag cnt) ≡ sparse_tag cnt 0 4096)
unfolding slot_of_tag in_window point_tag known_tag sparse_tag
known_tag_collides base cnt queued b l w = (omega arith, ground arith, omega arith)
