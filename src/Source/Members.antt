-- ===== src/Source/Members.antt =====
-- The framed members of a folder are counted again: crates/tule-core/src/agent_source.rs,
-- `frame_folder_members` and `count_folder_members`.
use mathlib.Core.List.{append_assoc, append-nil}
use tule.Base.{
  ℕ, zero, suc, ◌+◌, ◌^◌, ◌≤◌, ◌<◌, ◌≡◌, refl, sym, ap, ◌∙◌, true, List, [], ◌∷◌, ◌++◌, ok, Text,
  length, All, nat_eq, arith, length-append,
}
use tule.Base.Sort.{sort_by, length-sort_by, sort_by-All}
use tule.Base.Slices.{at_boundary}
use tule.Source.Folder.{
  by_basename, frame_member, frame_ordered, frame_folder_members, next_member, count_from,
  count_folder_members,
}
use tule.Source.NextMember.{IsMember, header, frame_member-header, next_member-header}

at_boundary-frame_ordered :
    (members : List (Text × Text)) → at_boundary (frame_ordered members) ≡ true
unfolding frame_ordered frame_member
at_boundary-frame_ordered [] = refl
at_boundary-frame_ordered (member ∷ members) = refl

-- One round of the loop, and its end.
count_from_round :
    (fuel : ℕ) (content : Text) (offset count end : ℕ)
    → offset < length content
    → next_member content offset ≡ ok end
    → count + 1 < 2 ^ 32
    → count_from (suc fuel) content offset count ≡ count_from fuel content end (count + 1)
unfolding count_from
count_from_round fuel content offset count end h found fits = rw found (ground arith)

count_from_end :
    (fuel : ℕ) (content : Text) (count : ℕ)
    → count_from (suc fuel) content (length content) count ≡ ok count
unfolding count_from
count_from_end fuel content count = ground arith

frame_length :
    (name body : Text)
    → length (frame_member (name, body)) ≡ length (header name (length body)) + length body
frame_length name body =
    ap length (frame_member-header name body) ∙ length-append (header name (length body)) body

next_member-frame :
    (front rest : Text) (member : Text × Text)
    → IsMember member
    → at_boundary rest ≡ true
    → length front + length (frame_member member) < 2 ^ 64
    → next_member (front ++ (frame_member member ++ rest)) (length front)
      ≡ ok (length (front ++ frame_member member))
next_member-frame front rest (name, body) m starts fits =
    ap (λ framed. next_member (front ++ (framed ++ rest)) (length front))
      (frame_member-header name body)
    ∙ (ap (λ content. next_member (front ++ content) (length front))
          (append_assoc (header name (length body)) body rest)
        ∙ (next_member-header front name body rest m starts (omega (arith, frame_length name body))
            ∙ ap ok (
                omega (
                  arith,
                  frame_length name body,
                  length-append front (frame_member (name, body)),
                ))))

frame_member-positive : (member : Text × Text) → 0 < length (frame_member member)
unfolding frame_member
frame_member-positive member = omega arith

-- The loop counts the members that are left.
count_from-frame_ordered :
    (fuel : ℕ) (front : Text) (members : List (Text × Text)) (count : ℕ)
    → All IsMember members
    → length front + length (frame_ordered members) < 2 ^ 64
    → count + length members < 2 ^ 32
    → length members < fuel
    → count_from fuel (front ++ frame_ordered members) (length front) count
      ≡ ok (count + length members)
unfolding frame_ordered
count_from-frame_ordered zero front members count all fits counts enough = absurd (omega arith)
count_from-frame_ordered (suc fuel) front [] count all fits counts enough =
    rw (append-nil front) (count_from_end fuel front count ∙ ap ok (omega arith))
count_from-frame_ordered (suc fuel) front (member ∷ members) count (m, all) fits counts enough =
    count_from_round fuel _ (length front) count (length (front ++ frame_member member))
      (omega (
        arith,
        length-append front (frame_member member ++ frame_ordered members),
        length-append (frame_member member) (frame_ordered members),
        frame_member-positive member,
      ))
      (next_member-frame front (frame_ordered members) member m (at_boundary-frame_ordered members)
        (omega (arith, length-append (frame_member member) (frame_ordered members))))
      (omega arith)
    ∙ (ap (λ content. count_from fuel content (length (front ++ frame_member member)) (count + 1))
          (sym (append_assoc front (frame_member member) (frame_ordered members)))
        ∙ (count_from-frame_ordered fuel (front ++ frame_member member) members (count + 1) all
              (omega (
                arith,
                length-append front (frame_member member),
                length-append (frame_member member) (frame_ordered members),
              ))
              (omega arith) (omega arith)
            ∙ ap ok (omega arith)))

le-frame_ordered : (members : List (Text × Text)) → length members ≤ length (frame_ordered members)
unfolding frame_ordered
le-frame_ordered [] = omega arith
le-frame_ordered (member ∷ members) = omega (
  arith,
  le-frame_ordered members,
  frame_member-positive member,
  length-append (frame_member member) (frame_ordered members),
)

count-frame_ordered :
    (members : List (Text × Text))
    → All IsMember members
    → 0 < length members
    → length members < 2 ^ 32
    → length (frame_ordered members) < 2 ^ 64
    → count_folder_members (frame_ordered members) ≡ ok (length members)
unfolding count_folder_members
count-frame_ordered members all some_member counts fits =
    rw
      (count_from-frame_ordered (length (frame_ordered members) + 1) [] members 0 all (omega arith)
        (omega arith) (omega (arith, le-frame_ordered members)))
      (ground arith)

-- The members that a folder is framed of are counted again in the frame, in whatever order they come.
pub count-frame_folder_members :
    (members : List (Text × Text))
    → All IsMember members
    → 0 < length members
    → length members < 2 ^ 32
    → length (frame_folder_members members) < 2 ^ 64
    → count_folder_members (frame_folder_members members) ≡ ok (length members)
unfolding frame_folder_members
count-frame_folder_members members all some_member counts fits =
    count-frame_ordered (sort_by by_basename members) (sort_by-All IsMember by_basename members all)
      (omega (arith, length-sort_by by_basename members))
      (omega (arith, length-sort_by by_basename members)) fits
    ∙ ap ok (length-sort_by by_basename members)
