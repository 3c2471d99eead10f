-- ===== src/Node/Uris.antt =====
-- split_tcpros_uri and split_udsros_uri of aioros/_node/_tcpros/_utils.py. `int` of a text is the
-- parameter `int_of`.
use aioros.Common.{
  ℕ, zero, suc, ◌-◌, ◌≡◌, refl, ap, true, false, List, [], ◌∷◌, ◌++◌, Str, str, starts_with, length,
  take, Result, ok, err, value_error, ◌==◌, ==_iff, ◌>>=◌, if◌then◌else◌, arith, any_by,
}
use aioros.Value.{ℤ}
use aioros.Resolve.{split_on}

-- the text after `skip` more characters, without the occurrences of a part: s.replace(part, "")
unfoldable pub remove_part : Str → ℕ → Str → Str
remove_part part skip [] = []
remove_part part (suc skip) (c ∷ s) = remove_part part skip s
remove_part part zero (c ∷ s) =
    let after = remove_part part (length part - 1) s in
    let rest = remove_part part zero s in if starts_with (c ∷ s) part then after else c ∷ rest

abbrev pub host_and_port : (Str → Result ℤ) → List Str → Result (Str × ℤ)
host_and_port int_of (host ∷ port ∷ []) = do number ← int_of port; ok (host, number)
host_and_port int_of _ = err value_error

unfoldable pub split_tcpros_uri : (Str → Result ℤ) → Str → Result (Str × ℤ)
unfolding remove_part
split_tcpros_uri int_of tcpros_uri =
    host_and_port int_of (
      take 2 (split_on b':' (remove_part (str "/") 0 (remove_part (str "rosrpc://") 0 tcpros_uri))))

-- "/".join(bits)
unfoldable pub join_bits : List Str → Str
join_bits [] = []
join_bits (bit ∷ []) = bit
join_bits (bit ∷ next ∷ bits) = bit ++ b'/' ∷ join_bits (next ∷ bits)

-- bits[0] and bits[1:] of a text that was split, which is never empty
abbrev pub host_and_path : List Str → Str × Str
host_and_path [] = ([], [])
host_and_path (host ∷ bits) = (host, join_bits bits)

unfoldable pub split_udsros_uri : Str → Str × Str
unfolding remove_part join_bits
split_udsros_uri udsros_uri =
    host_and_path (split_on b'/' (remove_part (str "udsros://") 0 udsros_uri))

abbrev pub Lacks : ℕ → Str → Type 0
Lacks d s = any_by (λ c. c == d) s ≡ false

starts_with-Lacks :
    (d : ℕ) (s part : Str)
    → Lacks d s
    → any_by (λ c. c == d) part ≡ true
    → starts_with s part ≡ false
unfolding starts_with
starts_with-Lacks d s [] h p = cc
starts_with-Lacks d [] (e ∷ part) h p = refl
starts_with-Lacks d (c ∷ s) (e ∷ part) h p = ground (arith, starts_with-Lacks d s part)

remove_part-Lacks :
    (d : ℕ) (part s : Str) → any_by (λ c. c == d) part ≡ true → Lacks d s → remove_part part 0 s ≡ s
unfolding remove_part
remove_part-Lacks d part [] p h = refl
remove_part-Lacks d part (c ∷ s) p h =
    rw (starts_with-Lacks d (c ∷ s) part h p)
      (ap (◌∷◌ c) (remove_part-Lacks d part s p (ground (arith, h))))

split_on-Lacks : (d : ℕ) (s : Str) → Lacks d s → split_on d s ≡ s ∷ []
unfolding split_on
split_on-Lacks d [] h = refl
split_on-Lacks d (c ∷ s) h = ground (arith, split_on-Lacks d s)

split_on-append : (d : ℕ) (s t : Str) → Lacks d s → Lacks d t → split_on d (s ++ d ∷ t) ≡ s ∷ t ∷ []
unfolding split_on
split_on-append d [] t h k = rw (split_on-Lacks d t k) (ground (arith, ==_iff d d))
split_on-append d (c ∷ s) t h k = ground (arith, split_on-append d s t)

Lacks-append : (d : ℕ) (s t : Str) → Lacks d s → Lacks d t → Lacks d (s ++ t)
Lacks-append d [] t h k = k
Lacks-append d (c ∷ s) t h k = ground (arith, Lacks-append d s t)

scheme_removed :
    (s : Str)
    → remove_part (str "rosrpc://") 0 (str "rosrpc://" ++ s) ≡ remove_part (str "rosrpc://") 0 s
unfolding remove_part starts_with
scheme_removed s = refl

-- The host and the port of a uri as a node makes it of them are found again: for a host without a
-- colon or a slash, and a port that is written in digits that `int` reads.
pub split_tcpros_uri-append :
    (int_of : Str → Result ℤ) (host digits : Str) (port : ℤ)
    → Lacks b'/' host
    → Lacks b':' host
    → Lacks b'/' digits
    → Lacks b':' digits
    → int_of digits ≡ ok port
    → split_tcpros_uri int_of (str "rosrpc://" ++ host ++ b':' ∷ digits) ≡ ok (host, port)
unfolding split_tcpros_uri
split_tcpros_uri-append int_of host digits port hs hc ds dc e =
    let rest = host ++ b':' ∷ digits in
    let plain : Lacks b'/' rest = Lacks-append b'/' host (b':' ∷ digits) hs ds in
    rw
      (
        scheme_removed rest,
        remove_part-Lacks b'/' (str "rosrpc://") rest refl plain,
        remove_part-Lacks b'/' (str "/") rest refl plain,
        split_on-append b':' host digits hc dc,
        e,
      )
      refl
