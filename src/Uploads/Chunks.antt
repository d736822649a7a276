-- ===== src/Uploads/Chunks.antt =====
-- The chunk count of a grant, `preflight` in operator/src/uploads.rs, against the chunk lengths that
-- `put_chunk` asks for.
use native.Mathlib.Omega.{div_fact}
use onym_backup.Prelude.{
  ℕ, zero, suc, ◌+◌, ◌-◌, ◌*◌, ◌/◌, ◌%◌, ◌^◌, ◌≤◌, ◌<◌, ◌≡◌, ap, subst, arith, ℕ_discrete,
}
use onym_backup.Prelude.Int.{pos, pos_part, wrap_i64_small, div_i64}
use onym_backup.Store.Rows.{UploadRow}
use onym_backup.Uploads.Preflight.{chunk_count_for}
use onym_backup.Uploads.Transfer.{expected_length}

-- the bytes of `rounds` chunks from number `i` on
abbrev pub bytes_from : UploadRow → ℕ → ℕ → ℕ → ℕ
bytes_from row n i zero = 0
bytes_from row n i (suc rounds) =
    pos_part (expected_length row n i) + bytes_from row n (suc i) rounds

-- How the source's division cuts a size into chunks.
pub record Cut (size chunk n : ℕ) : Type 0 where
  pub nonempty : 0 < n
  pub last_starts : chunk * n < size + chunk
  pub last_ends : size ≤ chunk * n

mul_suc : (c i : ℕ) → c * suc i ≡ c * i + c
mul_suc c i = omega arith

cut : (size k : ℕ) → 0 < size → Cut size (suc k) ((size + k) / suc k)
cut size k h = split ((size + k) / suc k) (div_fact (size + k) k)
  where
    split : (n : ℕ) → suc k * n + (size + k) % suc k ≡ size + k → Cut size (suc k) n
    split zero e = absurd (omega (arith, mul_suc k 0))
    split (suc n) e = record {
      nonempty = omega arith;
      last_starts = omega arith;
      last_ends = omega arith;
    }

last_piece :
    (row : UploadRow) (n i : ℕ)
    → Cut row.sealed_byte_size row.chunk_bytes n
    → suc i ≡ n
    → (m : ℕ) × (expected_length row n i ≡ pos m)
      × (0 < m)
      × (m ≤ row.chunk_bytes)
      × (m + row.chunk_bytes * i ≡ row.sealed_byte_size)
unfolding expected_length
last_piece row n i c e =
    let mul = ap (λ k. row.chunk_bytes * k) e in
    let suc_mul = mul_suc row.chunk_bytes i in
    let least = c.last_starts in
    let most = c.last_ends in
    (
      row.sealed_byte_size - row.chunk_bytes * i,
      ground arith,
      omega arith,
      omega arith,
      omega arith,
    )

inner_piece :
    (row : UploadRow) (n i : ℕ) → suc i < n → expected_length row n i ≡ pos row.chunk_bytes
unfolding expected_length
inner_piece row n i h = ground arith

-- From chunk `i` on, the chunks hold what the ones before it leave of the size.
bytes_from-rest :
    (row : UploadRow) (n i rounds : ℕ)
    → Cut row.sealed_byte_size row.chunk_bytes n
    → suc (i + rounds) ≡ n
    → bytes_from row n i (suc rounds) + row.chunk_bytes * i ≡ row.sealed_byte_size
bytes_from-rest row n i zero c e =
    let (m, is, _, _, sum) = last_piece row n i c (omega arith) in omega (arith, ap pos_part is)
bytes_from-rest row n i (suc rounds) c e =
    let is = inner_piece row n i (omega arith) in
    omega (
      arith,
      ap pos_part is,
      bytes_from-rest row n (suc i) rounds c (omega arith),
      mul_suc row.chunk_bytes i,
    )

all_bytes :
    (row : UploadRow) (n : ℕ)
    → Cut row.sealed_byte_size row.chunk_bytes n
    → bytes_from row n 0 n ≡ row.sealed_byte_size
all_bytes row zero c = absurd (omega (arith, c.nonempty))
all_bytes row (suc n) c = omega (arith, bytes_from-rest row (suc n) 0 n c (omega arith))

piece :
    (row : UploadRow) (n i : ℕ)
    → Cut row.sealed_byte_size row.chunk_bytes n
    → 0 < row.chunk_bytes
    → i < n
    → (m : ℕ) × (expected_length row n i ≡ pos m) × (0 < m) × (m ≤ row.chunk_bytes)
piece row n i c k h = elim (ℕ_discrete (suc i) n) [
  | yes e ↦ let (m, is, least, most, _) = last_piece row n i c e in (m, is, least, most)
  | no d ↦ (row.chunk_bytes, inner_piece row n i (omega (arith, d)), k, omega arith)
]

division_cuts :
    (size chunk : ℕ) → 0 < size → 0 < chunk → Cut size chunk ((size + chunk - 1) / chunk)
division_cuts size zero h k = absurd (omega arith)
division_cuts size (suc k) h _ =
    subst (λ m. Cut size (suc k) (m / suc k)) (omega arith) (cut size k h)

-- For a size of at least 1 and a chunk size of at least 1 whose sum fits an `i64`, the chunk count
-- that a grant is given is a positive number `n`; the lengths that `put_chunk` asks of chunks 0 to
-- `n - 1` add up to the size; and each of them is positive and at most the chunk size.
pub chunks_cover :
    (row : UploadRow)
    → 0 < row.sealed_byte_size
    → 0 < row.chunk_bytes
    → row.sealed_byte_size + row.chunk_bytes < 2 ^ 63
    → (n : ℕ) × (chunk_count_for row.sealed_byte_size row.chunk_bytes ≡ pos n)
      × (0 < n)
      × (bytes_from row n 0 n ≡ row.sealed_byte_size)
      × ((i : ℕ)
          → i < n
          → (m : ℕ) × (expected_length row n i ≡ pos m) × (0 < m) × (m ≤ row.chunk_bytes))
unfolding chunk_count_for div_i64
chunks_cover row h k b =
    let size = row.sealed_byte_size in
    let chunk = row.chunk_bytes in
    let n = (size + chunk - 1) / chunk in
    let c = division_cuts size chunk h k in
    (
      n,
      ap (λ z. div_i64 z chunk) (wrap_i64_small (size + chunk - 1) (omega arith)),
      c.nonempty,
      all_bytes row n c,
      λ i below. piece row n i c k below,
    )
