-- ===== src/Lib.antt =====
-- The client of the guild map (site/src): what its pages compute from what the backend sends.
--
-- The page polls the backend for the guild's members, the live events and the trails, and keeps
-- them in stores of its own; the map, the lists and the replay are drawn from those stores. The
-- files here model the stores and the computations, not the drawing.
--
-- Trail (site/src/canvas-map/trail-model.js, and nextHop of trail-layer.js): Point has the points
--   of a trail and classifyStep; Model has buildTrailModel; Time has indexAt, positionAt,
--   nextChangeAfter and nextHop; Live has decodeTrail, observeLive and mergeTrail; Marks has
--   placeMarks and timelineTicks.
-- Replay (site/src/trail-scrubber/replay-clock.js): the clock of the replay, whose callbacks are
--   arguments; Trail.Time has what they answer.
-- PubSub (site/src/data/pubsub.js): the topics through which the parts talk.
-- Storage (site/src/data/storage.js): what the browser remembers between visits.
-- Selection (site/src/data/selection.js): the selected player and the trails shown, on Storage.
-- LiveEvents (site/src/data/live-events.js): the poller of the hub's events and newsTracker.
-- Regions (site/src/data/regions.js): the ids of map regions, the wilderness and the names of places.
--   Tiles have a y below 16384, as the game's have.
-- EventView (site/src/data/event-view.js): the kinds of hub events, the filters and the tiers.
-- EventMarkers (site/src/canvas-map/event-markers.js): Kept has the markers and markerAlpha,
--   EventMarkers the operations, Visible what is drawn, Stacks and Layout where; strengths are
--   exact parts of 30000000. The server's clock is not set back, so that no age is below 0.
-- Skills, Items (site/src/data/skill.js, item.js): levels of experience, and a member's items.
-- Members (site/src/data/member-data.js, and the transforms of guild-data.js): a member of the guild
--   and what a poll does to them (Members.Update).
-- Guild (site/src/data/guild-data.js, setsEqual of utility.js): the members and the guild's polls;
--   Guild.Groups has groupByRegion and groupByWorld of regions.js, on which Guild.Entries and
--   Guild.Grouped have lemmas.
-- EventPlaces (site/src/canvas-map/event-places.js): where events were put, on Storage.
-- EventLayer (site/src/canvas-map/event-layer.js): the events on the map, on EventMarkers,
--   EventPlaces and what the trails answer.
-- GearTrips (site/src/data/gear-trips.js): the gear history as trips.
-- TrailLayer (site/src/canvas-map/trail-layer.js): the trails on the map and the marks kept for them,
--   on Trail; TrailLayer.Timeline has what a replay asks.
-- MapLevels (site/src/canvas-map/map-levels.js): the terrain's zoom levels, on fractions.
-- TrailSessions (site/src/map-page/trail-sessions.js): the play sessions that a trail is asked for.
-- Hiscores (site/src/data/hiscores.js): the groups of a player's activities and the guild's boards.
-- Slayer (site/src/data/slayer.js): the slayer task and the streak that are shown.
-- TrailLoads (site/src/map-page/map-page.js): loadTrails, as steps that overlap.
-- Base: lists, JavaScript's Map (Base.Dict) and Set (Base.Sets), keys and sorting.
--
-- Numbers are natural numbers: game coordinates, times after 1970, and counts. Where the source
-- subtracts and only compares, the truncated difference compares alike. Times of trails are whole
-- seconds, and those of the clock, the events and the marks whole milliseconds. Distances that a
-- time allows, which the source computes in floating point, are exact here, in twelfths of a tile.
-- Positions between two tiles are exact fractions. The experience for a level and the combat
-- level, which the source computes in floating point, are exact too, and the two agree at every
-- level. The searches over points and over marks run on fuel, one round for each and one more;
-- their theorems hold of every trail, so the fuel is enough. A poll runs on a unit of fuel for
-- each request, and two are enough. Polls of the live events follow one another; two that overlap
-- are not modelled. Positions on the screen are whole pixels.
--
-- Not modelled: drawing on the canvas and the shapes of trails, which are computed in floating
-- point; the DOM of the components; the sending of requests and the timers; formatting of dates by
-- the browser; and the servers.
pub mod Base
pub mod EventLayer
pub mod EventMarkers
pub mod EventPlaces
pub mod EventView
pub mod GearTrips
pub mod Guild
pub mod Hiscores
pub mod Items
pub mod LiveEvents
pub mod MapLevels
pub mod Members
pub mod PubSub
pub mod Regions
pub mod Replay
pub mod Selection
pub mod Skills
pub mod Slayer
pub mod Storage
pub mod Trail
pub mod TrailLayer
pub mod TrailLoads
pub mod TrailSessions
