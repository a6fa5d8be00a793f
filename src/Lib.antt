-- ===== src/Lib.antt =====
-- The AIS tracking system takes vessel reports from providers, filters and publishes them, stores
-- and enriches them, and shows them to web clients. This library models the path of an event from
-- the provider's message to the client's map.
--
-- How the parts are connected:
--   AISStream socket -> adapter (raw filter) -> ingestion pipeline (normalize, deduplicate, coverage, land, sample)
--     -> stream ais.events.v1 -> event bus (consumer groups, retries, dead letters)
--     -> storage writer -> tables (vessels, latest, daily history partitions)
--     -> fanout consumer -> realtime gateway (one send queue for each connection)
--     -> WebSocket -> vessels store of the web client (merge reducer)
--
-- Which file models which part:
--   Contracts, Contracts/Json   src/contracts/index.ts; what JSON.parse returns
--   Ingestion/Clean, /Normalizer src/ingestion/aisstream/aisstream.normalizer.ts
--   Ingestion/Schema            the two telemetry schemas of src/contracts/index.ts as checks
--   Ingestion/RawFilter         aisstream.raw-filter.ts, aisstream.message-types.ts beside it
--   Ingestion/Adapter           aisstream.adapter.ts beside it, src/ingestion/backoff.ts
--   Ingestion/Registry          src/ingestion/provider-registry.ts (resolve, refreshMetrics)
--   Pipeline/Coverage           src/shared/config/constants.ts (boxes, pointInBbox, pointInAnyBbox)
--   Pipeline/Dedup              src/pipeline/dedup.service.ts (shouldAccept)
--   Pipeline/Sampler            src/pipeline/sampler.service.ts (parseState, shouldEmit)
--   Pipeline/Handle             src/pipeline/ingestion-pipeline.service.ts (onModuleInit, handle)
--   Geo, Geo/Cache              src/geo/geo-validation.types.ts, geo-cache.service.ts
--   Geo/Validation              src/geo/geo-validation.service.ts
--   Enrichment/Matcher          src/enrichment/vessel/matcher.ts
--   Enrichment/Requester        src/enrichment/vessel/vessel-enrichment.requester.ts
--   Enrichment/Reconciler       src/enrichment/vessel/vessel-enrichment.reconciler.ts (runOnce)
--   Enrichment/Processor        enrichment.processor.ts, vessel-persisted.consumer.ts beside it
--   Bus/FailureHandler          src/shared/bus/failure-handler.ts (serializeError, onHandlerError)
--   Bus/Dispatch                src/shared/bus/redis-streams.event-bus.ts (dispatch,
--                               deadletterMalformed, the inner loops of runLoop)
--   Bus/Publish                 the same file (publish)
--   Realtime/SendQueue          src/realtime/send-queue.ts
--   Realtime/Gateway            src/realtime/realtime.gateway.ts, subscription.service.ts
--   Realtime/Gateway/Events     the listeners and timers that drive the gateway, as events
--   Realtime/Fanout             src/realtime/fanout.consumer.ts
--   Storage/Partitions          src/storage/history-partitions.ts
--   Storage/Maintenance         src/storage/history-partition-maintenance.service.ts
--   Storage/Repository          src/storage/vessels.repository.ts (the writes), schema/index.ts
--   Storage/Queries             the reads of the same repository
--   Storage/Writer              src/storage/storage-writer.consumer.ts
--   Storage/Calendar, /Digits   Date.UTC and the getters of a date; texts of digits
--   Web/MergeReducer            web/src/store/mergeReducer.ts, types.ts
--   Web/Vessels                 web/src/store/vessels.ts
--   Web/Client                  web/src/lib/wsClient.ts, backoff.ts
--   Web/Sync                    web/src/realtime/useVesselRealtimeSync.ts, web/src/lib/protocol.ts
--   Web/View                    web/src/lib/shipTypeLabel.ts, shipTypeColor.ts, navStatusLabel.ts,
--                               markerShape.ts, web/src/map/buildFeatureCollection.ts
-- The other modules prove what their names say; each folder's Tests runs the theorems at concrete
-- inputs. Prelude holds what the components share.
--
-- State. A class with mutable fields is a record, and a method returns the new record. A promise
-- is a function on the state of the world whose value may be missing (Prelude/Task) or an
-- exception (Bus), so every await may be rejected, with or without an effect. Maps are association
-- lists in insertion order, as Map iterates them. Numbers are natural numbers, integers over them,
-- and doubles by their IEEE bits.
--
-- Parameters. Redis, the PostGIS queries, what the bus makes of a stored vessel's event (which it
-- may have written though it rejects the call), the sockets of ws, Date.parse, JSON, the zod
-- schemas and encodeURIComponent are arguments. What a theorem relies on of them is a named
-- hypothesis (IsStored, IsRoundTrip, IsStream, IsLogged, IsReliable, IsCaching, IsKept), and the
-- tests give instances. The normalizer and the check against land enter the pipeline as fields of
-- the record Services; they are modelled apart, in Ingestion and Geo. The rounding of the
-- backoff's jitter, String(value) and toISOString of a parsed text are arguments of the ingestion.
--
-- Tables. A table is a list with the uniqueness that its constraints give, and an upsert is a
-- function on it, as its statement says: the COALESCE of each column, the guard of ON CONFLICT,
-- and the errors (a time that the database does not read, a time without a partition, a dimension
-- outside of smallint), which roll the transaction back. The readings of texts as times are
-- parameters.
--
-- Dates. A date is the milliseconds since 0000-03-01; Date.UTC and the getters are executable.
-- Dates before that have no number, which would take a retention of 700,000 days; dates below the
-- year 100 are read by Date.UTC as those of the twentieth century, so the theorems ask for the
-- year 100 or later.
--
-- Bounds and fuel. The loop over the days of the partition window has as many rounds as the policy
-- has days, and two more; the theorem on the plan shows that it gives every day. Decimal texts
-- have 16 digits at most, as safe integers have. Every other loop runs over a list; log2 in
-- Prelude/Double has 53 steps, one for each bit of an integer that a double holds exactly.
-- Counters do not wrap: the source counts in doubles, far below 2 ^ 53.
--
-- Not modelled: logging, timers and metrics other than those named in the states; the clients of
-- the database; the import of sanctions, the admin and API modules; the components of React and
-- map. The start and stop of the provider registry, the outer loop of the bus consumer, its
-- XAUTOCLAIM timer and group creation are left out too. The shutdown of the gateway is a function
-- (on_module_destroy) but no event of its runs: it forgets the connections and keeps the
-- subscriptions and the gauge, so the theorems on runs are those of a gateway that is up. Where
-- slice would cut a text inside a surrogate pair, the model cuts before the pair. Concurrent
-- awaits of several messages are not interleaved: a theorem on several messages takes them one
-- after the other.
pub mod Prelude
pub mod Contracts
pub mod Geo
pub mod Ingestion
pub mod Pipeline
pub mod Bus
pub mod Enrichment
pub mod Realtime
pub mod Storage
pub mod Web
