-- ===== src/Jobs.antt =====
-- app/core/job_queue.py and the job loop of app/worker.py: the Redis lists, the sorted set of
-- delayed jobs, and one round of the worker.
pub mod Job
pub mod Redis
pub mod Queue
pub mod Worker
pub mod Handler
pub mod Conservation
pub mod Dequeued
pub mod Round
pub mod Backoff
