-- ===== src/Source/NextMember.antt =====
-- The body of the loop over framed members: crates/tule-core/src/agent_source.rs,
-- `count_folder_members`.
use mathlib.Core.List.{append_assoc}
use tule.Base.{
  ℕ, ◌+◌, ◌-◌, ◌^◌, ◌<◌, ◌≡◌, refl, sym, ap, ◌∙◌, true, false, some, [], ◌∷◌, ◌++◌, ok, Text, bytes,
  decimal, ltb, length, any, ◌==◌, nat_eq, arith, length-append,
}
use tule.Base.Scalars.{chars, code_point}
use tule.Base.Slices.{strip_prefix, split_once, at_boundary, get_from, get_range, parse_usize}
use tule.Base.Cutting.{
  strip_prefix-append, split_once-append, get_from-append, get_range-append, decimal-no_byte,
  parse_usize-decimal,
}
use tule.Base.Chars.{IsUtf8, any-join, join-chars}
use tule.Source.Validation.{is_unsafe, validate_source_display_name, validate_source_content}
use tule.Source.Folder.{frame_member, next_member}

-- A member whose name and body pass the tests. A name is UTF-8, and a body starts with a char, as every
-- str does.
pub record IsMember (member : Text × Text) : Type 0 where
  pub name_utf8 : IsUtf8 member.0
  pub name_valid : validate_source_display_name member.0 ≡ ok tt
  pub body_char : at_boundary member.1 ≡ true
  pub body_valid : validate_source_content member.1 ≡ ok tt

-- A valid name has no line break.
name-no_break :
    (name : Text)
    → IsUtf8 name
    → validate_source_display_name name ≡ ok tt
    → any (λ b. b == b'\n') name ≡ false
unfolding validate_source_display_name code_point
name-no_break name utf8 valid =
    ap (any (λ b. b == b'\n')) (sym (join-chars name))
    ∙ any-join b'\n' (λ ch. is_unsafe (code_point ch)) (chars name) (omega arith) refl utf8
        (ground arith)

-- What the body of the loop finds, if each step finds something.
next_member_steps :
    (content rest after_member name after_name after_label size after_size body : Text)
    (offset byte_len start : ℕ)
    → get_from content offset ≡ some rest
    → strip_prefix (bytes "member: ") rest ≡ some after_member
    → split_once b'\n' after_member ≡ some (name, after_name)
    → validate_source_display_name name ≡ ok tt
    → strip_prefix (bytes "content-bytes: ") after_name ≡ some after_label
    → split_once b'\n' after_label ≡ some (size, after_size)
    → parse_usize size ≡ some byte_len
    → offset + (length rest - length after_size) ≡ start
    → ltb (start + byte_len) (2 ^ 64) ≡ true
    → get_range content start (start + byte_len) ≡ some body
    → validate_source_content body ≡ ok tt
    → next_member content offset ≡ ok (start + byte_len)
unfolding next_member
next_member_steps content rest after_member name after_name after_label size after_size body offset
      byte_len start e1 e2 e3 e4 e5 e6 e7 e8 e9 e10 e11 =
    rw (e1, e2, e3, e4, e5, e6, e7, e8, e9, e10, e11) refl

-- The frame of a member in front of its body.
abbrev pub header : Text → ℕ → Text
header name n =
    bytes "member: " ++ (name ++ (b'\n' ∷ (bytes "content-bytes: " ++ (decimal n ++ (b'\n' ∷ [])))))

-- What follows the label of the member, and what follows its name.
abbrev after_name_text : ℕ → Text → Text
after_name_text n tail = bytes "content-bytes: " ++ (decimal n ++ (b'\n' ∷ tail))

header-append :
    (name : Text) (n : ℕ) (tail : Text)
    → header name n ++ tail ≡ bytes "member: " ++ (name ++ (b'\n' ∷ after_name_text n tail))
header-append name n tail = simp (append_assoc) refl

pub frame_member-header :
    (name body : Text) → frame_member (name, body) ≡ header name (length body) ++ body
unfolding frame_member
frame_member-header name body = sym (header-append name (length body) body)

behind : (head tail : Text) (k : ℕ) → k + (length (head ++ tail) - length tail) ≡ k + length head
behind head tail k = omega (arith, length-append head tail)

at_boundary-append :
    (text rest : Text)
    → at_boundary text ≡ true
    → at_boundary rest ≡ true
    → at_boundary (text ++ rest) ≡ true
at_boundary-append [] rest h k = k
at_boundary-append (b ∷ text) rest h k = h

get_range_behind :
    (front head text rest : Text)
    → at_boundary text ≡ true
    → at_boundary rest ≡ true
    → get_range
        (front ++ (head ++ (text ++ rest)))
        (length front + length head)
        (length front + length head + length text)
      ≡ some text
get_range_behind front head text rest h k =
    rw (sym (append_assoc front head (text ++ rest)), sym (length-append front head))
      (get_range-append (front ++ head) text rest (at_boundary-append text rest h k) k)

pub next_member-header :
    (front name body rest : Text)
    → IsMember (name, body)
    → at_boundary rest ≡ true
    → length front + (length (header name (length body)) + length body) < 2 ^ 64
    → next_member (front ++ (header name (length body) ++ (body ++ rest))) (length front)
      ≡ ok ((length front + length (header name (length body))) + length body)
next_member-header front name body rest m starts fits =
    next_member_steps (front ++ (header name n ++ (body ++ rest))) (header name n ++ (body ++ rest))
      (name ++ (b'\n' ∷ after_name_text n (body ++ rest))) name (after_name_text n (body ++ rest))
      (decimal n ++ (b'\n' ∷ (body ++ rest))) (decimal n) (body ++ rest) body (length front) n
      (length front + length (header name n))
      (get_from-append front (header name n ++ (body ++ rest)) refl)
      (ap (strip_prefix (bytes "member: ")) (header-append name n (body ++ rest))
        ∙ strip_prefix-append (bytes "member: ") _)
      (split_once-append b'\n' name _ (name-no_break name m.name_utf8 m.name_valid)) m.name_valid
      (strip_prefix-append (bytes "content-bytes: ") _)
      (split_once-append b'\n' (decimal n) (body ++ rest) (decimal-no_byte b'\n' n (omega arith)))
      (parse_usize-decimal n (omega arith)) (behind (header name n) (body ++ rest) (length front))
      (ground arith) (get_range_behind front (header name n) body rest m.body_char starts)
      m.body_valid
  where
    n : ℕ
    n = length body
