-- ===== src/Wire/Sizes.antt =====
-- Whether the two ends of a transfer agree on its size (MPI_wrapper/*.hpp and the NBX receive).
use native.Mathlib.Decide.{ℕ_discrete}
use openfpm_vcluster.Prelude.{
  ℕ, ◌+◌, ◌*◌, ◌/◌, ◌%◌, ◌≤◌, ◌<◌, ◌≡◌, ◌≢◌, refl, sym, ap, subst, ◌∙◌, true, false, some, lt→ltb,
  le→ltb, le→leb, lt→leb, arith,
}
use openfpm_vcluster.Wire.{
  mpi_byte, mpi_double, int_max, transfer, Mpi, IsStandard, transfer_bytes, isend_buffer,
  irecv_buffer, issend_buffer, Probed, probe_size, recv_probed,
}

module _ (m : Mpi) (std : IsStandard m) where
  count_double : (k : ℕ) → k < 2147483648 → m.get_count mpi_double (k * 8) ≡ some k
  count_double k h =
      subst (λ w. m.get_count mpi_double (k * w) ≡ some k) std.double_size
        (std.count_whole mpi_double k h)

  count_byte : (k : ℕ) → k < 2147483648 → m.get_count mpi_byte k ≡ some k
  count_byte k h =
      subst (λ w. m.get_count mpi_byte w ≡ some k)
        (ap (λ (w : ℕ). k * w) std.byte_size ∙ omega arith) (std.count_whole mpi_byte k h)

  probe_whole :
      (k : ℕ)
      → k < 2147483648
      → probe_size m (k * 8) ≡ some (record { big_data = true; msize = k * 8 })
  unfolding probe_size
  probe_whole k h = rw (count_double k h, probe_size)

  probe_partial :
      (n : ℕ)
      → n % 8 ≢ 0
      → n < 2147483648
      → probe_size m n ≡ some (record { big_data = false; msize = n })
  unfolding probe_size
  probe_partial n p h = rw (
    std.count_partial mpi_double n (subst (λ w. n % w ≢ 0) (sym std.double_size) p),
    count_byte n h,
    probe_size,
  )

  byte_bytes : (n : ℕ) → n < 4294967296 → transfer_bytes m (transfer n mpi_byte) ≡ n
  byte_bytes n h = rw std.byte_size (omega arith)

  double_bytes : (n : ℕ) → n < 4294967296 → transfer_bytes m (transfer n mpi_double) ≡ n * 8
  double_bytes n h = rw std.double_size (omega arith)

  issend_bytes_small : (sz : ℕ) → sz ≤ int_max → transfer_bytes m (issend_buffer sz) ≡ sz
  unfolding issend_buffer
  issend_bytes_small sz h = rw (le→ltb int_max sz h) (byte_bytes sz (omega arith))

  issend_bytes_big :
      (sz : ℕ)
      → int_max < sz
      → sz < 17179869176
      → transfer_bytes m (issend_buffer sz) ≡ (sz / 8 + 1) * 8
  unfolding issend_buffer
  issend_bytes_big sz h b = rw (lt→ltb int_max sz h) (double_bytes (sz / 8 + 1) (omega arith))

  recv_bytes_double :
      (k : ℕ)
      → k < 4294967296
      → transfer_bytes m (recv_probed (record { big_data = true; msize = k * 8 })) ≡ k * 8
  unfolding recv_probed
  recv_bytes_double k h = double_bytes (k * 8 / 8) (omega arith) ∙ omega arith

  recv_bytes_byte :
      (n : ℕ)
      → n < 4294967296
      → transfer_bytes m (recv_probed (record { big_data = false; msize = n })) ≡ n
  unfolding recv_probed
  recv_bytes_byte n h = byte_bytes n h

  -- What the receiver makes of a message of `n` bytes: a size, and an MPI_Recv of that many bytes.
  abbrev pub Received : ℕ → Type 0
  Received n =
      (p : Probed) × (probe_size m n ≡ some p)
      × (p.msize ≡ n)
      × (transfer_bytes m (recv_probed p) ≡ n)

  Received-whole : (k : ℕ) → k < 2147483648 → Received (k * 8)
  Received-whole k h = (
    record { big_data = true; msize = k * 8 },
    probe_whole k h,
    refl,
    recv_bytes_double k (omega arith),
  )

  pub Received_lem : (n : ℕ) → n ≤ int_max → Received n
  Received_lem n h = elim (ℕ_discrete (n % 8) 0) [
    | yes e ↦
        let whole : n / 8 * 8 ≡ n = omega arith in
        subst Received whole (Received-whole (n / 8) (omega arith))
    | no e ↦ (
      record { big_data = false; msize = n },
      probe_partial n e (omega arith),
      refl,
      recv_bytes_byte n (omega arith),
    )
  ]

  -- A message that queue_all_sends sends with a size that fits an `int` (at most 2147483647 bytes)
  -- is probed by progressCommunication, which finds exactly that size, whether it counts doubles or
  -- bytes, and receives exactly that many bytes.
  pub issend-probe_small :
      (sz : ℕ)
      → sz ≤ int_max
      → (p : Probed) × (probe_size m (transfer_bytes m (issend_buffer sz)) ≡ some p)
        × (p.msize ≡ sz)
        × (transfer_bytes m (recv_probed p) ≡ sz)
  issend-probe_small sz h =
      subst
        (λ n.
          (p : Probed) × (probe_size m n ≡ some p)
          × (p.msize ≡ sz)
          × (transfer_bytes m (recv_probed p) ≡ sz))
        (sym (issend_bytes_small sz h)) (Received_lem sz h)

  -- A larger message (below 2^34 - 8 bytes, so that its count still fits an `int`) is sent as
  -- sz / 8 + 1 doubles: the receiver finds and receives between 1 and 8 bytes more than the sender
  -- meant to send.
  pub issend-probe_big :
      (sz : ℕ)
      → int_max < sz
      → sz < 17179869176
      → (p : Probed) × (probe_size m (transfer_bytes m (issend_buffer sz)) ≡ some p)
        × (sz < p.msize)
        × (p.msize ≤ sz + 8)
        × (transfer_bytes m (recv_probed p) ≡ p.msize)
  issend-probe_big sz h b = (
    record { big_data = true; msize = (sz / 8 + 1) * 8 },
    ap (probe_size m) (issend_bytes_big sz h b) ∙ probe_whole (sz / 8 + 1) (omega arith),
    omega arith,
    omega arith,
    recv_bytes_double (sz / 8 + 1) (omega arith),
  )

  -- Isend and Irecv of a buffer of known size agree on its bytes below 2147483647.
  pub isend-irecv_small :
      (sz : ℕ)
      → sz < int_max
      → (transfer_bytes m (isend_buffer sz) ≡ sz) × (transfer_bytes m (irecv_buffer sz) ≡ sz)
  unfolding isend_buffer irecv_buffer
  isend-irecv_small sz h = (
    rw (le→leb sz int_max (omega arith)) (byte_bytes sz (omega arith)),
    rw (lt→ltb sz int_max h) (byte_bytes sz (omega arith)),
  )

  irecv_bytes_big :
      (sz : ℕ) → int_max ≤ sz → sz < 17179869184 → transfer_bytes m (irecv_buffer sz) ≡ sz / 256 * 8
  unfolding irecv_buffer
  irecv_bytes_big sz h b = rw (le→ltb sz int_max h) (double_bytes (sz / 256) (omega arith))

  isend_bytes_max : transfer_bytes m (isend_buffer int_max) ≡ int_max
  unfolding isend_buffer
  isend_bytes_max = byte_bytes int_max (omega arith)

  isend_bytes_big :
      (sz : ℕ) → int_max < sz → sz < 17179869184 → transfer_bytes m (isend_buffer sz) ≡ sz / 8 * 8
  unfolding isend_buffer
  isend_bytes_big sz h b = rw (lt→leb sz int_max h) (double_bytes (sz / 8) (omega arith))

  -- From 2147483647 bytes on (and below 2^34, so that the counts fit an `int`) the Irecv that
  -- matches an Isend of a known size has room for at most an eighth of the bytes the size asks for,
  -- and for fewer than are sent.
  pub isend-irecv_big :
      (sz : ℕ)
      → int_max ≤ sz
      → sz < 17179869184
      → (transfer_bytes m (irecv_buffer sz) < transfer_bytes m (isend_buffer sz))
        × (8 * transfer_bytes m (irecv_buffer sz) ≤ sz)
  isend-irecv_big sz h b = elim (ℕ_discrete sz int_max) [
    | yes e ↦
        rw e (omega (arith, irecv_bytes_big int_max (omega arith) (omega arith), isend_bytes_max))
    | no e ↦ omega (arith, irecv_bytes_big sz h b, isend_bytes_big sz (omega arith) b)
  ]
