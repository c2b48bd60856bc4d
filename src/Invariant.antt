-- ===== src/Invariant.antt =====
-- The form of a node's tables, and what keeps it: the routing table and the list of broken links are
-- sorted by destination, the routes have distinct addresses, and kmalloc gives blocks that no route
-- stands in.
pub mod Tables
pub mod Platform
pub mod Routing
pub mod Handlers
pub mod Rreq
pub mod Rcvp
pub mod StRreq
pub mod Rrep
pub mod Rerr
pub mod Neighbours
pub mod Hello
pub mod Probe
pub mod Hooks
pub mod Thread
use aodv_android.Base.{
  ℕ, ◌≡◌, ◌==◌, Bool, true, false, Option, none, some, List, [], ◌∷◌, if◌then◌else◌, All, IsSorted,
}
use aodv_android.RouteTable.{Route, dst_of}
use aodv_android.RouteTable.Distinct.{Differs, Distinct}
use aodv_android.BrkList.{link_dst}
use aodv_android.Node.{Node, Cell, M, and_then, ◌>>=◌, ◌>>◌, update, when, deref, if_null, emit}
use aodv_android.Node.Preserves.{
  Behind, Preserves, bind-Preserves, then-Preserves, if-Preserves, when-Preserves,
  if_null-Preserves, deref-Preserves,
}

abbrev pub Unused : ℕ → List (Option Cell) → Type 0
Unused a [] = Unit {0}
Unused a (none ∷ cs) = Unused a cs
Unused a (some c ∷ cs) = ((a == c.addr) ≡ false) × Unused a cs

-- The coming blocks of memory are distinct, and no route stands in them.
abbrev pub Fresh : List (Option Cell) → List Route → Type 0
Fresh [] rs = Unit {0}
Fresh (none ∷ cs) rs = Fresh cs rs
Fresh (some c ∷ cs) rs = All (Differs c.addr) rs × Unused c.addr cs × Fresh cs rs

abbrev pub WellFormed : Node → Type 0
WellFormed n =
    IsSorted dst_of n.routes
    × Distinct n.routes
    × Fresh n.memory n.routes
    × IsSorted link_dst n.links

-- What holds of the state after a run; nothing is said of a run that faults.
abbrev pub After : {A : Type 0} → Option (A × Node) → Type 0
After o = Behind WellFormed o

abbrev pub Keeps : {A : Type 0} → M A → Type 0
Keeps m = (n : Node) → WellFormed n → After (m n)

pub bind-Keeps :
    {A B : Type 0} (m : M A) (f : A → M B) → Keeps m → ((a : A) → Keeps (f a)) → Keeps (m >>= f)
bind-Keeps m f h k = bind-Preserves WellFormed m f h k

pub then-Keeps : {A B : Type 0} (m : M A) (m' : M B) → Keeps m → Keeps m' → Keeps (m >> m')
then-Keeps m m' h k = then-Preserves WellFormed m m' h k

pub if-Keeps :
    {A : Type 0} (b : Bool) (m m' : M A) → Keeps m → Keeps m' → Keeps (if b then m else m')
if-Keeps b m m' h k = if-Preserves WellFormed b m m' h k

pub when-Keeps : (b : Bool) (m : M (Unit {0})) → Keeps m → Keeps (when b m)
when-Keeps b m h = when-Preserves WellFormed b m h

pub if_null-Keeps :
    {A B : Type 0} (o : Option A) (m : M B) (f : A → M B)
    → Keeps m
    → ((a : A) → Keeps (f a))
    → Keeps (if_null o m f)
if_null-Keeps o m f h k = if_null-Preserves WellFormed o m f h k

pub deref-Keeps : {A : Type 0} (o : Option A) → Keeps (deref o)
deref-Keeps o = deref-Preserves WellFormed o
