-- ===== src/Util.antt =====
-- awssql/utils: the queue, the map and the three caches that the other parts stand on.
pub mod RwQueue
pub mod RwMap
pub mod CacheMap
pub mod ExpirationCache
pub mod SlidingCache
