-- ===== src/Output/Laws.antt =====
-- The widths of names, and the lines of a stream.
use go_overlay.Base.{
  ◌||◌, ◌≢◌, ◌⊎◌, nat_eq_iff, ℕ, zero, suc, ◌-◌, ◌≤◌, Text, lit, ◌==◌, false, List, [], ◌∷◌, ◌++◌,
  if◌then◌else◌, nat_eq, ltb, length, length-append, ◌≡◌, refl, ap, arith, inl, inr, Bool-cases,
  Memᴰ, if_elim, has_byte,
}
use mathlib.Core.List.Memᴰ
use go_overlay.Ascii.{trim_right}
use go_overlay.Config.{Service}
use go_overlay.Output.{
  spaces, pad_right, longest_from, get_longest_service_name_length, format_service_name, read_slice,
  is_eol, line_of, print_service_line, add_line, stream_from, stream_service_logs,
  log_stream_buffer_size,
}

length-spaces : (n : ℕ) → length (spaces n) ≡ n
unfolding spaces
length-spaces zero = refl
length-spaces (suc n) = ap suc (length-spaces n)

longest_from-above : (n : ℕ) (services : List Service) → n ≤ longest_from n services
unfolding longest_from
longest_from-above n [] = omega arith
longest_from-above n (s ∷ services) =
    if_elim (λ m. n ≤ longest_from m services) (ltb n (length s.name)) _ _
      (λ h. ground (arith, longest_from-above (length s.name) services))
      (λ h. longest_from-above n services)

longest_from-mem :
    (services : List Service) (n : ℕ) (s : Service)
    → Memᴰ s services
    → length s.name ≤ longest_from n services
unfolding longest_from
longest_from-mem [] n s m = absurd (Memᴰ.not-nil m)
longest_from-mem (t ∷ services) n s (Memᴰ.head e) =
    let a : length s.name ≡ length t.name = ap (λ x. length x.name) e in
    if_elim (λ m. length s.name ≤ longest_from m services) (ltb n (length t.name)) _ _
      (λ h. ground (arith, longest_from-above (length t.name) services))
      (λ h. ground (arith, longest_from-above n services))
longest_from-mem (t ∷ services) n s (Memᴰ.tail m) = longest_from-mem services _ s m

-- The names of the services are all printed with the width of the longest.
pub length-format_service_name :
    (services : List Service) (s : Service)
    → Memᴰ s services
    → length (format_service_name s.name (get_longest_service_name_length services))
      ≡ get_longest_service_name_length services
unfolding format_service_name pad_right get_longest_service_name_length
length-format_service_name services s m =
    let k = get_longest_service_name_length services in
    omega (
      arith,
      length-append s.name (spaces (k - length s.name)),
      length-spaces (k - length s.name),
      longest_from-mem services 0 s m,
    )

-- What one read of at most `n` bytes takes of a stream, with the rest: the bytes up to the first line
-- feed, or `n` bytes without one, or all that is left.
abbrev pub Slice : ℕ → Text → Text → Type 0
Slice n chunk rest =
    ((body : Text) × (chunk ≡ body ++ 10 ∷ []) × (has_byte 10 body ≡ false) × (length chunk ≤ n))
    ⊎ ((has_byte 10 chunk ≡ false) × ((length chunk ≡ n) ⊎ ((rest ≡ []) × (length chunk ≤ n))))

-- The stream in slices that are not empty
abbrev pub Slices : Text → List Text → Type 0
Slices s [] = s ≡ []
Slices s (chunk ∷ chunks) =
    (rest : Text) × (s ≡ chunk ++ rest) × (chunk ≢ []) × Slice 65536 chunk rest × Slices rest chunks

-- A line for each slice that has more than line ends, without these and after the name
abbrev pub lines_of : Text → List Text → List Text
lines_of name [] = []
lines_of name (chunk ∷ chunks) =
    let line = trim_right (λ c. nat_eq c 13 || nat_eq c 10) chunk in
    let rest = lines_of name chunks in
    if line == [] then rest else (lit "[" ++ name ++ lit "] " ++ line) ∷ rest

read_slice-append : (n : ℕ) (s : Text) → s ≡ (read_slice n s).0 ++ (read_slice n s).1
unfolding read_slice
read_slice-append zero s = refl
read_slice-append (suc n) [] = refl
read_slice-append (suc n) (c ∷ s) = ground (arith, read_slice-append n s)

read_slice-length : (n : ℕ) (s : Text) → length (read_slice n s).1 ≤ length s
unfolding read_slice
read_slice-length zero s = omega arith
read_slice-length (suc n) [] = omega arith
read_slice-length (suc n) (c ∷ s) = ground (arith, read_slice-length n s)

read_slice-shorter : (n : ℕ) (c : ℕ) (s : Text) → length (read_slice (suc n) (c ∷ s)).1 ≤ length s
unfolding read_slice
read_slice-shorter n c s = ground (arith, read_slice-length n s)

read_slice-takes : (n : ℕ) (c : ℕ) (s : Text) → (read_slice (suc n) (c ∷ s)).0 ≢ []
unfolding read_slice
read_slice-takes n c s h = ground (arith, h)

-- One more byte in front of a slice
Slice-cons :
    (n c : ℕ) (chunk rest : Text)
    → nat_eq c 10 ≡ false
    → Slice n chunk rest
    → Slice (suc n) (c ∷ chunk) rest
unfolding has_byte
Slice-cons n c chunk rest e (inl (body, i, h, l)) =
    inl (c ∷ body, ap (λ t. c ∷ t) i, ground (arith, e, h), omega (arith, l))
Slice-cons n c chunk rest e (inr (h, inl l)) = inr (ground (arith, e, h), inl (omega (arith, l)))
Slice-cons n c chunk rest e (inr (h, inr (r, l))) =
    inr (ground (arith, e, h), inr (r, omega (arith, l)))

read_slice-Slice : (n : ℕ) (s : Text) → Slice n (read_slice n s).0 (read_slice n s).1
unfolding read_slice has_byte
read_slice-Slice zero s = inr (refl, inl refl)
read_slice-Slice (suc n) [] = inr (refl, inr (refl, omega arith))
read_slice-Slice (suc n) (c ∷ s) = elim (Bool-cases (nat_eq c 10)) [
  | inl e ↦ rw e (inl ([], ap (λ b. b ∷ []) ((nat_eq_iff c 10).0 e), refl, omega arith))
  | inr e ↦ rw e (Slice-cons n c (read_slice n s).0 (read_slice n s).1 e (read_slice-Slice n s))
]

printed :
    (name chunk : Text) (chunks lines : List Text)
    → lines ≡ lines_of name chunks
    → add_line (print_service_line name chunk) lines ≡ lines_of name (chunk ∷ chunks)
unfolding print_service_line line_of
printed name chunk chunks lines h = elim (Bool-cases (trim_right is_eol chunk == [])) [
  | inl e ↦ rw (e, print_service_line) h
  | inr e ↦
      rw (e, print_service_line)
        (ap (λ r. (lit "[" ++ name ++ lit "] " ++ trim_right is_eol chunk) ∷ r) h)
]

abbrev pub Prints : Text → Text → List Text → Type 0
Prints name s lines = (chunks : List Text) × Slices s chunks × (lines ≡ lines_of name chunks)

stream_from-Prints : (n : ℕ) (name s : Text) → length s ≤ n → Prints name s (stream_from n name s)
unfolding stream_from ◌==◌
stream_from-Prints zero name [] h = ([], refl, refl)
stream_from-Prints zero name (c ∷ s) h = absurd (omega arith)
stream_from-Prints (suc n) name [] h = ([], refl, refl)
stream_from-Prints (suc n) name (c ∷ s) h =
    let b = log_stream_buffer_size in
    let (chunk, rest) = read_slice b (c ∷ s) in
    let shorter = read_slice-shorter 65535 c s in
    let (chunks, i, e) = stream_from-Prints n name rest (omega (arith, shorter)) in
    (
      chunk ∷ chunks,
      (
        rest,
        read_slice-append b (c ∷ s),
        read_slice-takes 65535 c s,
        read_slice-Slice b (c ∷ s),
        i,
      ),
      printed name chunk chunks _ e,
    )

-- The output of a service is read in slices, each up to the next line feed, or of 65536 bytes where
-- there is none so far, or of what is left at the end. Printed is a line for each slice that has
-- more than line ends: the slice without the line ends at its end, after the name of the service.
pub stream_service_logs-Prints :
    (stream service_name : Text) (max_length : ℕ)
    → Prints
        (format_service_name service_name max_length)
        stream
        (stream_service_logs stream service_name max_length)
unfolding stream_service_logs
stream_service_logs-Prints stream service_name max_length =
    stream_from-Prints (length stream) (format_service_name service_name max_length) stream
      (omega arith)
