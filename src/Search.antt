-- ===== src/Search.antt =====
-- The route searches of the_art_of_c++: deep_first.cpp, breadth_first.cpp, hill_climbing.cpp,
-- least_cost.cpp and node_removed.cpp. Each declares the same flights, the same stack and the same
-- `match`; they differ in `find`, in the body of `findroute`, and in the loop of `main`.
pub mod Flights
pub mod Finders
pub mod Route
pub mod LeastCost
pub mod BreadthFirst
pub mod NodeRemoval
