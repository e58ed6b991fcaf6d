-- ===== src/Membership/ApprovalLists.antt =====
-- The comma-separated lists of approvals: `FromString` and `ToArray`.
use algorea_backend.Shared.{
  ◌≡◌, refl, ◌∙◌, Bool, true, false, ◌||◌, List, [], ◌∷◌, ◌++◌, Text, codes, text_eq, text_eq-eq,
  split, arith,
}
use algorea_backend.Membership.Approvals.{
  GroupApprovals, no_approvals, approve, approve_all, from_string, to_array,
}

-- `strings.Join(parts, ",")`.
abbrev pub join : List Text → Text
join [] = []
join (part ∷ []) = part
join (part ∷ (next ∷ parts)) = part ++ (b',' ∷ join (next ∷ parts))

flags : Bool → Bool → Bool → GroupApprovals
flags i l w = record {
  personal_info_view_approval = i;
  lock_membership_approval = l;
  watch_approval = w;
}

round_trip : (i l w : Bool) → from_string no_approvals (join (to_array (flags i l w))) ≡ flags i l w
unfolding flags from_string to_array approve approve_all split text_eq
round_trip true true true = refl
round_trip true true false = refl
round_trip true false true = refl
round_trip true false false = refl
round_trip false true true = refl
round_trip false true false = refl
round_trip false false true = refl
round_trip false false false = refl

-- Reading back with `FromString` the comma-separated list that `ToArray` makes of any set of
-- approvals gives the set.
pub from_string-to_array : (a : GroupApprovals) → from_string no_approvals (join (to_array a)) ≡ a
unfolding flags
from_string-to_array a =
    round_trip a.personal_info_view_approval a.lock_membership_approval a.watch_approval

-- Is the text one of the parts?
abbrev pub names : Text → List Text → Bool
names t [] = false
names t (part ∷ parts) = text_eq part t || names t parts

distinct_texts :
    (text_eq (codes "personal_info_view") (codes "lock_membership") ≡ false)
    × (text_eq (codes "personal_info_view") (codes "watch") ≡ false)
    × (text_eq (codes "lock_membership") (codes "watch") ≡ false)
unfolding text_eq
distinct_texts = (refl, refl, refl)

exclusive : (part s t : Text) → text_eq s t ≡ false → text_eq part s ≡ true → text_eq part t ≡ false
exclusive part s t differ e = rw (text_eq-eq part s e) differ

approve-names :
    (a : GroupApprovals) (part : Text)
    → approve a part ≡ record {
      personal_info_view_approval =
          a.personal_info_view_approval || text_eq part (codes "personal_info_view");
      lock_membership_approval =
          a.lock_membership_approval || text_eq part (codes "lock_membership");
      watch_approval = a.watch_approval || text_eq part (codes "watch");
    }
unfolding approve
approve-names a part = ground (
  arith,
  exclusive part (codes "personal_info_view") (codes "lock_membership") distinct_texts.0,
  exclusive part (codes "personal_info_view") (codes "watch") distinct_texts.1,
  exclusive part (codes "lock_membership") (codes "watch") distinct_texts.2,
)

approve_all-names :
    (a : GroupApprovals) (parts : List Text)
    → approve_all a parts ≡ record {
      personal_info_view_approval =
          a.personal_info_view_approval || names (codes "personal_info_view") parts;
      lock_membership_approval =
          a.lock_membership_approval || names (codes "lock_membership") parts;
      watch_approval = a.watch_approval || names (codes "watch") parts;
    }
unfolding approve_all
approve_all-names a [] = ground arith
approve_all-names a (part ∷ parts) =
    approve_all-names (approve a part) parts ∙ rw (approve-names a part) (ground arith)

-- `FromString` sets an approval exactly if its name is one of the parts between the commas, and
-- keeps those that were set.
pub from_string-names :
    (a : GroupApprovals) (s : Text)
    → from_string a s ≡ record {
      personal_info_view_approval =
          a.personal_info_view_approval || names (codes "personal_info_view") (split b',' s);
      lock_membership_approval =
          a.lock_membership_approval || names (codes "lock_membership") (split b',' s);
      watch_approval = a.watch_approval || names (codes "watch") (split b',' s);
    }
unfolding from_string
from_string-names a s = approve_all-names a (split b',' s)
