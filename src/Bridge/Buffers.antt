-- ===== src/Bridge/Buffers.antt =====
-- webview-fula/utils.ts and rn-client/utils.ts: `concatArrayBuffers`.
use fula_archived.Prelude.{
  ℕ, zero, suc, ◌+◌, List, [], ◌∷◌, ◌++◌, length, take, drop, replicate, concat, Bytes, ◌≡◌, refl,
  ap, ◌∙◌, arith, length-append, append_assoc,
}

-- `bufs.reduce((totalSize, buf) => totalSize + buf.byteLength, 0)`
unfoldable pub total_size : ℕ → List Bytes → ℕ
total_size total [] = total
total_size total (b ∷ bs) = total_size (total + length b) bs

-- `result.set(buf, offset)`, within the array.
unfoldable pub set_at : Bytes → Bytes → ℕ → Bytes
set_at result buf offset = take offset result ++ (buf ++ drop (offset + length buf) result)

-- The second `reduce`, which writes each buffer behind the one before.
unfoldable pub write_all : Bytes → ℕ → List Bytes → Bytes
write_all result offset [] = result
write_all result offset (b ∷ bs) = write_all (set_at result b offset) (offset + length b) bs

unfoldable pub concat_array_buffers : List Bytes → Bytes
unfolding total_size write_all
concat_array_buffers bufs = write_all (replicate (total_size 0 bufs) 0) 0 bufs

take-front : (k : ℕ) (xs ys : Bytes) → length xs ≡ k → take k (xs ++ ys) ≡ xs
take-front zero [] ys e = refl
take-front zero (x ∷ xs) ys e = absurd (omega (arith, e))
take-front (suc k) [] ys e = absurd (omega (arith, e))
take-front (suc k) (x ∷ xs) ys e = ap (λ r. x ∷ r) (take-front k xs ys (omega (arith, e)))

drop-front : (k j : ℕ) (xs ys : Bytes) → length xs ≡ k → drop (k + j) (xs ++ ys) ≡ drop j ys
drop-front zero j [] ys e = ap (λ m. drop m ys) (omega arith)
drop-front zero j (x ∷ xs) ys e = absurd (omega (arith, e))
drop-front (suc k) j [] ys e = absurd (omega (arith, e))
drop-front (suc k) j (x ∷ xs) ys e =
    let m : suc k + j ≡ suc (k + j) = omega arith in rw m (drop-front k j xs ys (omega (arith, e)))

drop-replicate : (j k n : ℕ) → n ≡ j + k → drop {A = ℕ} j (replicate n 0) ≡ replicate k 0
drop-replicate zero k n e = ap (λ m. replicate m 0) (omega (arith, e))
drop-replicate (suc j) k zero e = absurd (omega (arith, e))
drop-replicate (suc j) k (suc n) e = drop-replicate j k n (omega (arith, e))

-- Behind what is written there are zeros for what is still to be written.
write_all-concat :
    (bs : List Bytes) (done : Bytes) (offset : ℕ)
    → length done ≡ offset
    → write_all (done ++ replicate (length (concat bs)) 0) offset bs ≡ done ++ concat bs
unfolding write_all set_at
write_all-concat [] done offset e = refl
write_all-concat (b ∷ bs) done offset e =
    rw
      (
        take-front offset done (replicate (length (b ++ concat bs)) 0) e,
        drop-front offset (length b) done (replicate (length (b ++ concat bs)) 0) e,
        drop-replicate (length b) (length (concat bs)) (length (b ++ concat bs))
            (length-append b (concat bs)),
        ← append_assoc done b (replicate (length (concat bs)) 0),
      )
      (write_all-concat bs (done ++ b) (offset + length b) (omega (arith, e, length-append done b))
        ∙ append_assoc done b (concat bs))

total_size-length : (bs : List Bytes) (n : ℕ) → total_size n bs ≡ n + length (concat bs)
unfolding total_size
total_size-length [] n = omega arith
total_size-length (b ∷ bs) n =
    omega (arith, total_size-length bs (n + length b), length-append b (concat bs))

-- `concatArrayBuffers` gives an array that has exactly the buffers' bytes, in order.
pub concat_array_buffers-concat : (bufs : List Bytes) → concat_array_buffers bufs ≡ concat bufs
unfolding concat_array_buffers
concat_array_buffers-concat bufs =
    let same : total_size 0 bufs ≡ length (concat bufs) = omega (arith, total_size-length bufs 0) in
    rw same (write_all-concat bufs [] 0 refl)
