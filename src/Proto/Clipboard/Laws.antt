-- ===== src/Proto/Clipboard/Laws.antt =====
-- Extended Clipboard bodies are read back from what their writers make
-- (crates/alloyvnc-proto/src/msg.rs).
use Prim.Native.Nat.{bit_or}
use mathlib.Core.List.{append-nil}
use alloyvnc.Base.{
  ℕ, suc, ◌+◌, ◌-◌, ◌%◌, ◌≤◌, ◌<◌, ◌≡◌, refl, ◌∙◌, ap, Bool, true, false, ◌&&◌, Bool-cases, inl,
  inr, Option, none, some, [], ◌∷◌, ◌++◌, length, length-append, All, arith, ltb, ◌==◌,
}
use alloyvnc.Base.Words.{u32_mod}
use alloyvnc.Proto.Error.{ok}
use alloyvnc.Proto.Wire.{Bytes, be32, be32_lem, of_be32, split_at-append, byte_at}
use alloyvnc.Proto.Text.{Text, as_bytes, replace_crlf}
use alloyvnc.Proto.Text.Utf8.{IsScalar, from_utf8_lossy-as_bytes}
use alloyvnc.Proto.Clipboard.{
  Stream, Inflate, Deflate, max_cut_text, provide, strip_null, clipboard_text, provided_loop,
  provided_text, read_exact, parse_actions, parse_clipboard, provide_block, clipboard_provide_text,
  action_provide, format_text, has_bit,
}

strip_null-terminated : (bs : Bytes) → strip_null (bs ++ 0 ∷ []) ≡ bs
unfolding strip_null
strip_null-terminated [] = refl
strip_null-terminated (b ∷ []) = refl
strip_null-terminated (b ∷ c ∷ bs) = ap (λ r. b ∷ r) (strip_null-terminated (c ∷ bs))

replace_crlf-IsScalar : (text : Text) → All IsScalar text → All IsScalar (replace_crlf text)
unfolding replace_crlf
replace_crlf-IsScalar [] h = tt
replace_crlf-IsScalar (c ∷ []) h = h
replace_crlf-IsScalar (c ∷ d ∷ text) h = elim (Bool-cases (c == 13 && d == 10)) [
  | inl e ↦ rw e (inl (omega arith), replace_crlf-IsScalar text h.1.1)
  | inr f ↦ rw f (h.0, replace_crlf-IsScalar (d ∷ text) h.1)
]

-- The bytes that a clipboard text is sent as, its line ends made `\n`.
abbrev pub sent_bytes : Text → Bytes
sent_bytes text = as_bytes (replace_crlf text)

clipboard_text-sent :
    (text : Text)
    → All IsScalar text
    → clipboard_text (sent_bytes text ++ 0 ∷ []) ≡ replace_crlf (replace_crlf text)
unfolding clipboard_text
clipboard_text-sent text h = rw (
  strip_null-terminated (sent_bytes text),
  from_utf8_lossy-as_bytes (replace_crlf text) (replace_crlf-IsScalar text h),
)

read_exact-append :
    (front rest : Bytes) (broken : Bool)
    → read_exact (length front) (record { plain = front ++ rest; broken = broken })
      ≡ ok (front, record { plain = rest; broken = broken })
unfolding read_exact
read_exact-append front rest broken = rw (split_at-append front rest, read_exact)

read_exact-all :
    (bs : Bytes) (broken : Bool)
    → read_exact (length bs) (record { plain = bs; broken = broken })
      ≡ ok (bs, record { plain = []; broken = broken })
read_exact-all bs broken = rw (append-nil bs) at (read_exact-append bs [] broken)

-- The flags of a provided text name no format above the first.
abbrev provide_flags : ℕ
provide_flags = bit_or action_provide format_text

provided_loop-end :
    (z : Stream) (budget : ℕ) (text : Option Text)
    → provided_loop 23 1 provide_flags z budget text ≡ ok text
unfolding provided_loop
provided_loop-end z budget text = refl

provided_loop-step :
    (left flags budget : ℕ) (z z' z'' : Stream) (head body : Bytes) (len : ℕ)
    → has_bit flags 0 ≡ true
    → read_exact 4 z ≡ ok (head, z')
    → of_be32 (byte_at head 0) (byte_at head 1) (byte_at head 2) (byte_at head 3) ≡ len
    → len ≤ budget
    → read_exact len z' ≡ ok (body, z'')
    → provided_loop (suc left) 0 flags z budget none
      ≡ provided_loop left 1 flags z'' (budget - len) (some (clipboard_text body))
unfolding provided_loop
provided_loop-step left flags budget z z' z'' head body len bit a b le c =
    let within : ltb budget len ≡ false = ground arith in rw (provided_loop, bit, a, b, within, c)

block_read :
    (text : Text)
    → All IsScalar text
    → length (sent_bytes text) < max_cut_text
    → provided_loop 24 0 provide_flags
        (record { plain = provide_block text; broken = false })
        max_cut_text
        none
      ≡ ok (some (replace_crlf (replace_crlf text)))
unfolding provide_block
block_read text h le =
    let body : Bytes = sent_bytes text ++ 0 ∷ [] in
    let size : ℕ = length (sent_bytes text) + 1 in
    let small : size % u32_mod ≡ size = omega arith in
    let sized : length body ≡ size = length-append (sent_bytes text) (0 ∷ []) in
    provided_loop-step 23 provide_flags max_cut_text
      (record { plain = provide_block text; broken = false })
      (record { plain = body; broken = false }) (record { plain = []; broken = false })
      (be32 (size % u32_mod)) body size refl (read_exact-append (be32 (size % u32_mod)) body false)
      (rw small (be32_lem size (omega arith))) (omega arith)
      (rw (← sized) (read_exact-all body false))
    ∙ provided_loop-end (record { plain = []; broken = false }) (max_cut_text - size)
        (some (clipboard_text body))
    ∙ ap (λ t. ok (some t)) (clipboard_text-sent text h)

-- Where the decompressor undoes the compressor, a provided text is read back with its line ends
-- normalised twice, if it is at most 2 ^ 20 bytes with its terminator.
pub provide_lem :
    (inflate : Inflate) (deflate : Deflate) (text : Text)
    → ((bs : Bytes) → inflate (deflate bs) ≡ record { plain = bs; broken = false })
    → All IsScalar text
    → length (sent_bytes text) < max_cut_text
    → parse_clipboard inflate (clipboard_provide_text deflate text)
      ≡ ok (provide (some (replace_crlf (replace_crlf text))))
unfolding parse_clipboard clipboard_provide_text parse_actions provided_text
provide_lem inflate deflate text inv h le = rw (inv (provide_block text), block_read text h le)
