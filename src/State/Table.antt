-- ===== src/State/Table.antt =====
-- The abstract table: valid tables up to the order of their map, as a quotient.
use go_cluster.Prelude.{Text, text_is_eq, List, Option, ◌≡◌, sym, ap, ◌∙◌, ◌↔◌}
use go_cluster.GoMap.{lookup}
use go_cluster.Membership.{MemberInfo}
use go_cluster.State.{State, sort_members, values}
use go_cluster.State.Sorting.{entries}
use go_cluster.State.Validity.{IsValid}
use go_cluster.State.Snapshots.{SameMembers, lookup-snapshot, sorted_members_canonical}
use mathlib.Core.Quot
use mathlib.Core.Quot.{Quot, Quot-set}

abbrev pub ValidState : Type 0
ValidState = (s : State) × IsValid s

abbrev pub AreSame : ValidState → ValidState → Type 0
AreSame a b = SameMembers a.0 b.0

abbrev pub Table : Type 0
Table = Quot AreSame

list_set : IsSet (List MemberInfo)
list_set = hlevel

option_set : IsSet (Option MemberInfo)
option_set = hlevel

-- The members in the order of a snapshot.
pub members : Table → List MemberInfo
members =
    Quot.lift list_set (λ a. sort_members (values a.0.members))
      (λ a b h. sorted_members_canonical a.0 b.0 a.1 b.1 h)

pub find : Text → Table → Option MemberInfo
find k = Quot.lift option_set (λ a. lookup k a.0.members) (λ a b h. h k)

find-members : (k : Text) (t : Table) → lookup k (entries (members t)) ≡ find k t
unfolding members find
find-members k = Quot.ind (λ t. option_set _ _) (λ a. lookup-snapshot a.0 k a.1)

-- Two abstract tables are equal if they answer every lookup alike.
table_ext : (t u : Table) → ((k : Text) → find k t ≡ find k u) → t ≡ u
unfolding find
table_ext =
    Quot.ind (λ t. hlevel Quot-set) (λ a. Quot.ind (λ u. hlevel Quot-set) (λ b h. Quot.sound h))

-- The sorted list of a snapshot determines an abstract table, and is determined by it: two tables
-- are equal exactly if their sorted members are.
pub members_injective : (t u : Table) → (members t ≡ members u) ↔ (t ≡ u)
members_injective t u = (
  λ e.
      table_ext t u
        (λ k. sym (find-members k t) ∙ ap (λ l. lookup k (entries l)) e ∙ find-members k u),
  λ e. ap members e,
)
