-- ===== src/Net/Connector/Derived.antt =====
-- Boxed connectors are passed on by `clone_box` and `new_domain` of `TcpDomainConnector`
-- (src/net/mod.rs): what becomes of a connector on the way.
use future_aio.Base.{String, List, [], ◌∷◌, ◌≡◌, refl, ap, ◌∙◌}
use future_aio.Net.Connector.{TcpDomainConnector}

pub data Change : Type 0 where
  cloned : Change
  renamed : String → Change

module _ {W Fd Write Read C : Type 0} (i : TcpDomainConnector W Fd Write Read C) where
  -- The connector after the changes, the first one first.
  unfoldable pub derived : List Change → C → C
  derived [] c = c
  derived (cloned ∷ cs) c = derived cs (i.clone_box c)
  derived (renamed d ∷ cs) c = derived cs (i.new_domain c d)

-- The domain that was given last, or the first one where none was given.
unfoldable pub last_domain : List Change → String → String
last_domain [] d = d
last_domain (cloned ∷ cs) d = last_domain cs d
last_domain (renamed e ∷ cs) d = last_domain cs e

-- Connectors that only their domains tell apart stay so under all changes.
pub derived-last_domain :
    {W Fd Write Read C : Type 0} (i : TcpDomainConnector W Fd Write Read C) (named : String → C)
    → ((d : String) → i.clone_box (named d) ≡ named d)
    → ((d e : String) → i.new_domain (named d) e ≡ named e)
    → (cs : List Change) (d : String) → derived i cs (named d) ≡ named (last_domain cs d)
unfolding derived last_domain
derived-last_domain i named clones renames [] d = refl
derived-last_domain i named clones renames (cloned ∷ cs) d =
    ap (derived i cs) (clones d) ∙ derived-last_domain i named clones renames cs d
derived-last_domain i named clones renames (renamed e ∷ cs) d =
    ap (derived i cs) (renames d e) ∙ derived-last_domain i named clones renames cs e

-- A connector without a domain is left as it is.
pub derived_same :
    {W Fd Write Read C : Type 0} (i : TcpDomainConnector W Fd Write Read C) (c : C)
    → i.clone_box c ≡ c
    → ((e : String) → i.new_domain c e ≡ c)
    → (cs : List Change) → derived i cs c ≡ c
derived_same i c clones renames cs =
    derived-last_domain i (λ _. c) (λ _. clones) (λ _. renames) cs ""
