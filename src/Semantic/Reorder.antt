-- ===== src/Semantic/Reorder.antt =====
-- Vcluster::reorder_buffer (VCluster/VCluster.hpp): the received buffers, put in the order of the
-- sending processes.
pub mod Order
pub mod Unique
use openfpm_vcluster.Prelude.{
  ℕ, ◌+◌, Bool, Option, none, some, List, [], ◌∷◌, get_elem?, ltb, ◌==◌, if◌then◌else◌, ◌>>=◌,
}

-- The bytes of a receive buffer
abbrev pub Buffer : Type 0
Buffer = List ℕ

-- recv_buff_reorder
pub record Entry : Type 0 where
  pub proc : ℕ
  pub tag : ℕ
  pub pos : ℕ

-- Its operator<, on the keys of two entries
unfoldable pub before : ℕ → ℕ → ℕ → ℕ → Bool
before proc tag proc' tag' = if proc == proc' then ltb tag tag' else ltb proc proc'

abbrev pub less : Entry → Entry → Bool
less a b = before a.proc a.tag b.proc b.tag

-- A missing tag is `(unsigned int)-1`.
abbrev pub no_tag : ℕ
no_tag = 4294967295

-- The loop that fills `rcv`, one entry for each buffer from number `i` on; `none` reads `prc` past
-- its end.
unfoldable pub entries : ℕ → List Buffer → List ℕ → List ℕ → Option (List Entry)
entries i [] prc tags = some []
entries i (b ∷ bs) [] tags = none
entries i (b ∷ bs) (p ∷ ps) [] =
    entries (i + 1) bs ps [] >>= λ es. some (record { proc = p; tag = no_tag; pos = i } ∷ es)
entries i (b ∷ bs) (p ∷ ps) (t ∷ ts) =
    entries (i + 1) bs ps ts >>= λ es. some (record { proc = p; tag = t; pos = i } ∷ es)

-- The elements at the positions of the entries, in their order; `none` reads past the end.
unfoldable pub pick {ℓ} : {A : Type ℓ} → List A → List Entry → Option (List A)
pick xs [] = some []
pick xs (e ∷ es) = get_elem? xs e.pos >>= λ x. pick xs es >>= λ ys. some (x ∷ ys)

abbrev pub procs : List Entry → List ℕ
procs [] = []
procs (e ∷ es) = e.proc ∷ procs es

-- What reorder_buffer leaves in recv_buf, prc and sz_recv
pub record Reordered : Type 0 where
  pub recv_buf : List Buffer
  pub prc : List ℕ
  pub sz_recv : List ℕ

-- `sort` is openfpm::vector's. The buffers of `recv_ord` are new and empty, so the two rounds of
-- swaps move each received buffer to its new place.
unfoldable pub reorder_buffer :
    (List Entry → List Entry) → List Buffer → List ℕ → List ℕ → List ℕ → Option Reordered
unfolding entries pick
reorder_buffer sort bufs prc tags sz_recv = entries 0 bufs prc tags >>= λ rcv.
    let ord = sort rcv in
    pick bufs ord >>= λ recv_ord. pick sz_recv ord >>= λ sz_ord.
    some (record { recv_buf = recv_ord; prc = procs ord; sz_recv = sz_ord })
