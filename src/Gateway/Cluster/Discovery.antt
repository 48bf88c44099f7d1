-- ===== src/Gateway/Cluster/Discovery.antt =====
-- ClusterManager::discoverNodes and detectFailedNodes: what is announced and what is found.
use iot_distributed_gateway.Common.{
  ◌≡◌, refl, sym, ◌∙◌, Bytes, bytes_test, bytes_test_iff, List, [], ◌∷◌, ◌++◌, Bool, true, false,
  not, ◌&&◌, ◌||◌, some, arith,
}
use iot_distributed_gateway.Common.StringSet.{contains}
use iot_distributed_gateway.Gateway.Cluster.{
  ClusterManager, Action, node_change, missing, notices, discover_nodes, detect_failed_nodes,
}

pub contains-missing :
    (self id : Bytes) (ids others : List Bytes)
    → contains id (missing self ids others)
      ≡ (contains id ids && (not (bytes_test id self) && not (contains id others)))
unfolding missing contains
contains-missing self id [] others = refl
contains-missing self id (x ∷ ids) others =
    ground (arith, bytes_test_iff x id, contains-missing self id ids others)

abbrev same : Bool → Bool → Bool
same true way = way
same false way = not way

abbrev notice_of : Bytes → Bool → Action → Bool
notice_of id up (node_change x way) = same up way && bytes_test x id
notice_of id up _ = false

-- Whether a node is announced, as new or as lost.
abbrev pub announced : Bytes → Bool → List Action → Bool
announced id up [] = false
announced id up (a ∷ acts) = notice_of id up a || announced id up acts

announced-append :
    (id : Bytes) (up : Bool) (xs ys : List Action)
    → announced id up (xs ++ ys) ≡ (announced id up xs || announced id up ys)
announced-append id up [] ys = refl
announced-append id up (x ∷ xs) ys = ground (arith, announced-append id up xs ys)

announced-notices :
    (id : Bytes) (up way : Bool) (ids : List Bytes)
    → announced id up (notices way ids) ≡ (same up way && contains id ids)
unfolding contains
announced-notices id up way [] = ground arith
announced-notices id up way (x ∷ ids) = ground (arith, announced-notices id up way ids)

-- Discovery announces as new exactly the nodes that are alive and were not known, and as lost exactly
-- those that were known and are not alive, this node excepted.
announced-discover_nodes :
    (id : Bytes) (alive : List Bytes) (m : ClusterManager)
    → let acts = (discover_nodes (some alive) m).1 in
      (announced id true acts
        ≡ (contains id alive && (not (bytes_test id m.node_id) && not (contains id m.known_nodes))))
      × (announced id false acts ≡ (
          contains id m.known_nodes && (not (bytes_test id m.node_id) && not (contains id alive))))
unfolding discover_nodes
announced-discover_nodes id alive m =
    let fresh = missing m.node_id alive m.known_nodes in
    let lost = missing m.node_id m.known_nodes alive in
    let a = contains-missing m.node_id id alive m.known_nodes in
    let b = contains-missing m.node_id id m.known_nodes alive in
    (
      ground (
        arith,
        announced-append id true (notices true fresh) (notices false lost),
        announced-notices id true true fresh,
        announced-notices id true false lost,
      ),
      ground (
        arith,
        announced-append id false (notices true fresh) (notices false lost),
        announced-notices id false true fresh,
        announced-notices id false false lost,
      ),
    )

-- The nodes that failure detection finds are those that discovery announces as lost.
detect_failed_nodes-discover_nodes :
    (id : Bytes) (alive : List Bytes) (m : ClusterManager)
    → contains id (detect_failed_nodes (some alive) m)
      ≡ announced id false (discover_nodes (some alive) m).1
unfolding detect_failed_nodes
detect_failed_nodes-discover_nodes id alive m =
    contains-missing m.node_id id m.known_nodes alive ∙ sym (announced-discover_nodes id alive m).1

-- A second discovery with the same nodes alive announces nothing.
pub discover_nodes_twice :
    (id : Bytes) (up : Bool) (alive : List Bytes) (m : ClusterManager)
    → announced id up (discover_nodes (some alive) (discover_nodes (some alive) m).0).1 ≡ false
unfolding discover_nodes
discover_nodes_twice id up alive m =
    let none_left = missing m.node_id alive alive in
    announced-append id up (notices true none_left) (notices false none_left)
    ∙ (ground (
      arith,
      announced-notices id up true none_left,
      announced-notices id up false none_left,
      contains-missing m.node_id id alive alive,
    ))
